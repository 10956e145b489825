-- ===== src/Ait/DescriptorExamples.antt =====
-- The theorems on the descriptors, the transports and the choice of an application at concrete inputs.
use orb_private.Prelude.{
  ◌≡◌, refl, inr, true, some, List, [], ◌∷◌, ◌++◌, Text, codes, length, arith,
}
use orb_private.Ait.{
  AitAppDesc, AppDesc, TransportProtocolDesc, zero_app, zero_transport, zero_app_desc, zero_triplet,
}
use orb_private.Ait.Descriptors.{parse_app_desc}
use orb_private.Ait.Descriptors.Profiles.{encode_app_desc, parse_app_desc-encode}
use orb_private.Ait.Descriptors.Ratings.{SignalledRating}
use orb_private.Ait.Descriptors.Boundaries.{encode_texts}
use orb_private.Ait.Application.{parse_application}
use orb_private.Ait.Application.Loop.{Descriptor, encode, parse_all, parse_application-encode}
use orb_private.Ait.Transport.{
  parse_transport_protocol_desc, extract_base_url, extract_protocol_id,
  app_set_transport_failed_to_load, set_failed_loop,
}
use orb_private.Ait.Transport.Parsing.{encode_url, with_url, parse_transport_protocol_desc-url}
use orb_private.Ait.Transport.Choice.{extract_base_url-protocol_id}

abbrev app_desc : AppDesc
app_desc = record {
  visibility = 3;
  priority = 7;
  num_labels = 2;
  app_profiles =
      record { app_profile = 258; version_major = 1; version_minor = 6; version_micro = 1 } ∷ [];
  transport_protocol_labels = 1 ∷ 2 ∷ [];
  service_bound = true;
}

parse_app_desc-encode_example :
    parse_app_desc (encode_app_desc app_desc ++ 9 ∷ []) (record zero_app_desc { visibility = 2 })
    ≡ some app_desc
parse_app_desc-encode_example =
    parse_app_desc-encode app_desc (record zero_app_desc { visibility = 2 }) (9 ∷ [])
      (record { visible = omega arith; counted = refl; short = omega arith }) refl refl

abbrev pages : List Text
pages = codes "http://a.b" ∷ codes "http://c.d" ∷ []

abbrev descriptors : List Descriptor
descriptors =
    record { tag = 0x17; payload = 1 ∷ (encode_texts (codes "http://a.b" ∷ [])) }
    ∷ record { tag = 0x99; payload = 5 ∷ [] }
    ∷ []

parse_application-encode_example :
    parse_application (encode descriptors ++ 9 ∷ []) (length (encode descriptors)) zero_app
    ≡ parse_all descriptors (9 ∷ []) zero_app
parse_application-encode_example =
    parse_application-encode descriptors (9 ∷ []) zero_app (omega arith)

abbrev carousel : TransportProtocolDesc
carousel = record zero_transport { protocol_id = 1 }

abbrev http : TransportProtocolDesc
http = record zero_transport {
  protocol_id = 3;
  url = record { base_url = codes "http://a.b/"; extension_urls = [] };
}

abbrev two_ways : AitAppDesc
two_ways = record zero_app { num_transports = 2; transport_array = http ∷ carousel ∷ [] }

parse_transport_protocol_desc-url_example :
    parse_transport_protocol_desc
      (16 ∷ 0 ∷ 3 ∷ 1 ∷ (encode_url (codes "http://a.b") [] ++ 9 ∷ []))
      (carousel ∷ zero_transport ∷ [])
    ≡ some (true, carousel ∷ with_url 1 (codes "http://a.b") [] zero_transport ∷ [])
parse_transport_protocol_desc-url_example =
    parse_transport_protocol_desc-url carousel zero_transport 16 1 (codes "http://a.b") [] (9 ∷ [])
      (omega arith) (omega arith) (omega arith) (inr refl)

extract_base_url-protocol_id_example :
    (extract_base_url two_ways zero_triplet true ≡ some (codes "http://a.b/"))
    × (extract_protocol_id two_ways true ≡ some 3)
extract_base_url-protocol_id_example =
    extract_base_url-protocol_id zero_triplet true two_ways (omega arith)

set_failed_run :
    app_set_transport_failed_to_load two_ways 3
    ≡ some (record two_ways {
      transport_array = record http { failed_to_load = true } ∷ carousel ∷ [];
    })
unfolding app_set_transport_failed_to_load set_failed_loop
set_failed_run = refl

abbrev gbr_12 : SignalledRating
gbr_12 = record { c0 = b'G'; c1 = b'B'; c2 = b'R'; age = 9 }
