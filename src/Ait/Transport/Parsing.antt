-- ===== src/Ait/Transport/Parsing.antt =====
-- What the transport protocol descriptor does to the two slots of an application.
use orb_private.Prelude.{
  ℕ, ◌≤◌, ◌<◌, ◌≡◌, ◌≢◌, ◌⊎◌, true, false, none, some, List, [], ◌∷◌, ◌++◌, append_assoc, Text,
  Pointer, ◌==◌, if◌then◌else◌, length, byte, word, drop-append_left, text_at-append, arith,
}
use orb_private.Ait.{TransportProtocolDesc, UrlSelectorBytes, protocol_http, max_num_protocols}
use orb_private.Ait.Descriptors.Boundaries.{encode_texts, read_texts-encode}
use orb_private.Ait.Transport.{
  scan_slots, parse_url, parse_selector, fill_slot, parse_transport_protocol_desc,
}

-- A URL base and its extensions as selector bytes.
abbrev pub encode_url : Text → List Text → List ℕ
encode_url base extensions = length base ∷ (base ++ length extensions ∷ encode_texts extensions)

parse_url-encode :
    (base : Text) (extensions : List Text) (url : UrlSelectorBytes) (rest : Pointer)
    → parse_url url (encode_url base extensions ++ rest)
      ≡ some (record { base_url = base; extension_urls = url.extension_urls ++ extensions })
unfolding parse_url
parse_url-encode base extensions url rest =
    rw (append_assoc base (length extensions ∷ encode_texts extensions) rest) (
      rw (text_at-append base)
        (rw (drop-append_left base) (rw (read_texts-encode extensions url.extension_urls rest))))

-- The slot of a transport after a URL descriptor has been read into it.
abbrev pub with_url : ℕ → Text → List Text → TransportProtocolDesc → TransportProtocolDesc
with_url label base extensions t = record t {
  protocol_id = protocol_http;
  transport_protocol_label = label;
  url = record { base_url = base; extension_urls = t.url.extension_urls ++ extensions };
  failed_to_load = false;
}

fill_slot-url :
    (desc_len label : ℕ) (base : Text) (extensions : List Text) (t : TransportProtocolDesc)
    (rest : Pointer)
    → 3 < desc_len
    → fill_slot desc_len protocol_http
        (desc_len ∷ 0 ∷ 3 ∷ label ∷ (encode_url base extensions ++ rest))
        t
      ≡ some (with_url label base extensions t)
unfolding fill_slot parse_selector
fill_slot-url desc_len label base extensions t rest long =
    let labelled : TransportProtocolDesc = record t {
      protocol_id = protocol_http;
      transport_protocol_label = label;
    } in
    ground (arith, parse_url-encode base extensions labelled.url rest)

module _ (t u : TransportProtocolDesc) where
  -- When one of the two slots is free and HTTP has none yet, an HTTP descriptor of more than
  -- three bytes goes to the first free slot, with its label, its base URL and its extensions, and
  -- is reported as a new one.
  pub parse_transport_protocol_desc-url :
      (desc_len label : ℕ) (base : Text) (extensions : List Text) (rest : Pointer)
      → 3 < desc_len
      → t.protocol_id ≢ protocol_http
      → u.protocol_id ≢ protocol_http
      → (t.protocol_id ≡ 0) ⊎ (u.protocol_id ≡ 0)
      → parse_transport_protocol_desc
          (desc_len ∷ 0 ∷ 3 ∷ label ∷ (encode_url base extensions ++ rest))
          (t ∷ u ∷ [])
        ≡ some (
          true,
          (if t.protocol_id == 0
              then with_url label base extensions t ∷ u ∷ []
              else t ∷ with_url label base extensions u ∷ []),
        )
  unfolding parse_transport_protocol_desc scan_slots
  parse_transport_protocol_desc-url desc_len label base extensions rest long nt nu free = ground (
    arith,
    fill_slot-url desc_len label base extensions t rest long,
    fill_slot-url desc_len label base extensions u rest long,
  )

  scan_slots-taken :
      (protocol_id : ℕ)
      → t.protocol_id ≢ 0
      → (t.protocol_id ≡ protocol_id) ⊎ (u.protocol_id ≢ 0)
      → (scan_slots protocol_id 0 max_num_protocols (t ∷ u ∷ [])).1 ≡ max_num_protocols
  unfolding scan_slots
  scan_slots-taken protocol_id taken full = ground arith

  -- With both slots taken, or with the protocol in the first slot already, a descriptor of three
  -- bytes or more is written behind the array: no result is returned.
  pub parse_transport_protocol_desc-overrun :
      (p : Pointer) {desc_len protocol_id : ℕ}
      → byte p 0 ≡ some desc_len
      → 3 ≤ desc_len
      → word p 1 ≡ some protocol_id
      → t.protocol_id ≢ 0
      → (t.protocol_id ≡ protocol_id) ⊎ (u.protocol_id ≢ 0)
      → parse_transport_protocol_desc p (t ∷ u ∷ []) ≡ none
  unfolding parse_transport_protocol_desc
  parse_transport_protocol_desc-overrun p {desc_len} {protocol_id} e long w taken full =
      ground (arith, scan_slots-taken protocol_id taken full)
