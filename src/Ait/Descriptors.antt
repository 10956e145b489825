-- ===== src/Ait/Descriptors.antt =====
-- components/application_manager/ait.cpp: the descriptors of an application, but the transport
-- protocol. Each parser has the pointer at the descriptor's length byte. `none` is a read or a
-- write outside the buffer, which the source does not check for. A uint8 wraps at 256.
pub mod Names
pub mod Profiles
pub mod Ratings
pub mod Boundaries
use orb_private.Prelude.{
  ℕ, zero, suc, ◌+◌, ◌-◌, ◌*◌, ◌/◌, ◌%◌, Bool, Option, none, some, List, [], ◌∷◌, ◌++◌, Text,
  Pointer, codes, is_empty, ltb, leb, ◌==◌, if◌then◌else◌, ◌>>=◌, length, set, drop, replicate,
  byte, word, text_at,
}
use orb_private.Ait.{AppDesc, AppProfile, AppNameDesc, LangString, AitAppDesc, ParentalRating}

-- The variables of the loop in ParseAppDesc.
pub record ProfileLoop : Type 0 where
  pub data_ptr : Pointer
  pub desc_len : ℕ  -- uint8
  pub app_profiles : List AppProfile

-- One round of `while (profileLen >= 5)`.
unfoldable pub parse_profile : ProfileLoop → Option ProfileLoop
parse_profile s = do
  profile ← word s.data_ptr 0
  major ← byte s.data_ptr 2
  minor ← byte s.data_ptr 3
  micro ← byte s.data_ptr 4
  some (record {
    data_ptr = drop 5 s.data_ptr;
    desc_len = (s.desc_len + 256 - 5) % 256;
    app_profiles =
        s.app_profiles
        ++ record {
          app_profile = profile;
          version_major = major;
          version_minor = minor;
          version_micro = micro;
        }
          ∷ [];
  })

-- The loop runs `profileLen / 5` rounds.
unfoldable pub parse_profiles : ℕ → ProfileLoop → Option ProfileLoop
parse_profiles zero s = some s
parse_profiles (suc n) s = parse_profile s >>= parse_profiles n

-- What follows the loop: the flags, the priority and the labels.
unfoldable pub parse_app_desc_end : ProfileLoop → Option AppDesc
parse_app_desc_end s = do
  flags ← byte s.data_ptr 0
  priority ← byte s.data_ptr 1
  let num_labels = (s.desc_len + 256 - 2) % 256
  labels ← text_at num_labels (drop 2 s.data_ptr)
  some (record {
    visibility = flags / 32 % 4;
    priority = priority;
    num_labels = num_labels;
    app_profiles = s.app_profiles;
    transport_protocol_labels = labels;
    service_bound = leb 1 (flags / 128 % 2);
  })

-- Ait::ParseAppDesc. A visibility of 2 marks a descriptor that is not parsed yet.
unfoldable pub parse_app_desc : Pointer → AppDesc → Option AppDesc
parse_app_desc p desc =
    if desc.visibility == 2
    then (do
      desc_len ← byte p 0
      profile_len ← byte p 1
      s ← parse_profiles (profile_len / 5) (record {
        data_ptr = drop 2 p;
        desc_len = (desc_len + 256 - 1) % 256;
        app_profiles = desc.app_profiles;
      })
      parse_app_desc_end s)
    else some desc

-- The first loop of ParseAppNameDesc counts the names. A round reads four bytes of the buffer and
-- goes four bytes on, so the fuel is the buffer's length: at 0 there is nothing left to read.
unfoldable pub count_names : ℕ → ℕ → ℕ → Pointer → Option ℕ
count_names zero desc_len num_langs p = if leb desc_len 4 then some num_langs else none
count_names (suc fuel) desc_len num_langs p =
    let next = (do
      name_len ← byte p 3
      count_names fuel ((desc_len + 512 - (name_len + 4)) % 256)
          (if ltb 0 name_len then (num_langs + 1) % 256 else num_langs) (drop 4 p)) in
    if leb desc_len 4 then some num_langs else next

-- names[i] = v, a fault outside the vector
unfoldable pub put_name : List LangString → ℕ → LangString → Option (List LangString)
put_name names i v = if ltb i (length names) then some (set names i v) else none

-- The second loop fills them in.
unfoldable pub read_names : ℕ → ℕ → ℕ → List LangString → Pointer → Option (List LangString)
read_names zero desc_len num_langs names p = if leb desc_len 4 then some names else none
read_names (suc fuel) desc_len num_langs names p =
    let next = (do
      high ← byte p 0
      low ← word p 1
      name_len ← byte p 3
      filled ←
          (if ltb 0 name_len
            then (do
              name ← text_at name_len (drop 4 p)
              put_name names num_langs (record { lang_code = high * 65536 + low; name = name }))
            else some names)
      read_names fuel ((desc_len + 512 - (name_len + 4)) % 256)
          (if ltb 0 name_len then (num_langs + 1) % 256 else num_langs) filled (drop 4 p)) in
    if leb desc_len 4 then some names else next

-- Ait::ParseAppNameDesc
unfoldable pub parse_app_name_desc : Pointer → AppNameDesc → Option AppNameDesc
parse_app_name_desc p app_name = elim app_name.names [
  | [] ↦ do
    desc_len ← byte p 0
    num_langs ← count_names (length p) desc_len 0 (drop 1 p)
    names ←
        read_names (length p) desc_len 0 (replicate num_langs (record { lang_code = 0; name = [] }))
          (drop 1 p)
    some (record { num_langs = num_langs; names = names })
  | n ∷ ns ↦ some app_name
]

-- Ait::ParseSimpleAppLocationDesc
unfoldable pub parse_simple_app_location_desc : Pointer → Text → Option Text
parse_simple_app_location_desc p str =
    if is_empty str
    then (do desc_len ← byte p 0; if ltb 0 desc_len then text_at desc_len (drop 1 p) else some str)
    else some str

-- `count` texts, each behind its length: the boundaries of an application, or the extension URLs
-- of a transport. The pointer behind them is returned too.
unfoldable pub read_texts : ℕ → List Text → Pointer → Option (List Text × Pointer)
read_texts zero texts p = some (texts, p)
read_texts (suc count) texts p = do
  len ← byte p 0
  text ← text_at len (drop 1 p)
  read_texts count (texts ++ text ∷ []) (drop len (drop 1 p))

-- Ait::ParseSimpleAppBoundaryDesc
unfoldable pub parse_simple_app_boundary_desc : Pointer → AitAppDesc → Option AitAppDesc
parse_simple_app_boundary_desc p app = do
  count ← byte p 1
  (boundaries, rest) ← read_texts count app.boundaries (drop 2 p)
  some (record app { boundaries = boundaries })

-- The do-while loop of ParseParentalRatingDesc. A round reads four bytes, as above.
unfoldable pub read_ratings : ℕ → ℕ → List ParentalRating → Pointer → Option (List ParentalRating)
read_ratings zero desc_len ratings p = none
read_ratings (suc fuel) desc_len ratings p =
    let rest_len = (desc_len + 256 - 4) % 256 in
    let next = λ (read : List ParentalRating). read_ratings fuel rest_len read (drop 4 p) in
    do
      region ← text_at 3 p
      age ← byte p 3
      let read =
          ratings
          ++ record { scheme = codes "dvb-si"; region = region; value = (age + 3) % 256 } ∷ []
      if ltb 4 rest_len then next read else some read

-- Ait::ParseParentalRatingDesc
unfoldable pub parse_parental_rating_desc : Pointer → AitAppDesc → Option AitAppDesc
parse_parental_rating_desc p app = elim app.parental_ratings [
  | [] ↦ do
    desc_len ← byte p 0
    ratings ← read_ratings (length p) desc_len [] (drop 1 p)
    some (record app { parental_ratings = ratings })
  | r ∷ rs ↦ some app
]

-- The switch of ParseGraphicsConstraints.
unfoldable pub push_graphics : ℕ → List ℕ → List ℕ
push_graphics id constraints =
    if id == 4
    then constraints ++ 1080 ∷ []
    else if id == 5
    then constraints ++ 2160 ∷ []
    else if id == 6
    then constraints ++ 4320 ∷ []
    else constraints

unfoldable pub read_graphics : ℕ → List ℕ → Pointer → Option (List ℕ)
read_graphics zero constraints p = some constraints
read_graphics (suc n) constraints p = do
  id ← byte p 1
  read_graphics n (push_graphics id constraints) (drop 1 p)

-- Ait::ParseGraphicsConstraints
unfoldable pub parse_graphics_constraints : Pointer → AitAppDesc → Option AitAppDesc
parse_graphics_constraints p app = elim app.graphics_constraints [
  | [] ↦ do
    len ← byte p 0
    constraints ← read_graphics (len - 1) (720 ∷ []) (drop 1 p)
    some (record app { graphics_constraints = constraints })
  | c ∷ cs ↦ some app
]
