-- ===== src/Dispatchd/Api/Tests.antt =====
-- The routes at concrete requests.
use m3_core_rs.Base.{
  ◌*◌, ◌^◌, ◌≤◌, ◌<◌, ◌≡◌, refl, ◌≢◌, ◌↔◌, ◌⊎◌, Bool, true, false, none, some, List, [], ◌∷◌, Text,
  ascii, length, all, is_empty, fixed, tenth,
}
use m3_core_rs.Dispatchd.Hub.{Hub, State, empty, named}
use m3_core_rs.Dispatchd.Hub
use m3_core_rs.Dispatchd.Api.{bad_request, origin_bytes, no_content, panics, waits, ring, wait}
use m3_core_rs.Dispatchd.Api.Guards.{OriginFits, ring_iff, wait_panics_iff}

abbrev small : Hub
small = record { window = 10; keep_for = 60; max_log = 3 }

abbrev recipients : List Text
recipients = ascii "a" ∷ [] ∷ []

bad_origin_test :
    (ring small 1 recipients (some (ascii "x\ty")) empty).1 ≡ bad_request (origin_bytes 3)
unfolding ring
bad_origin_test = refl

rings_test : (ring small 1 recipients none empty).1 ≡ no_content
unfolding ring
rings_test = refl

ring_iff_example :
    (((ring small 1 recipients none empty).1 ≡ no_content)
      ↔ ((2 ≤ 1000) × (0 < length (named recipients)) × OriginFits none))
    × ((((ring small 1 recipients none empty).1 ≡ no_content)
          × ((ring small 1 recipients none empty).0 ≡ (Hub.ring small 1 recipients none empty).0))
        ⊎ (((ring small 1 recipients none empty).1 ≢ no_content)
            × ((ring small 1 recipients none empty).0 ≡ empty)))
ring_iff_example = ring_iff small 1 recipients none empty

waits_test : wait fixed recipients (tenth 50) ≡ waits 5_000_000_000
unfolding wait
waits_test = refl

wait_panics_iff_example : (wait fixed recipients (tenth (10 * 2 ^ 64)) ≡ panics) ↔ (
    (all is_empty recipients ≡ false)
    × (◌≡◌ {A = Bool} true true)
    × (◌≡◌ {A = Bool} true true)
    × (◌≡◌ {A = Bool} true true))
wait_panics_iff_example = wait_panics_iff fixed recipients (tenth (10 * 2 ^ 64))
