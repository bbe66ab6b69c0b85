-- ===== src/Speedtest/Runs.antt =====
-- Runs of the speed test's messages, and their theorem at a concrete message.
use libya_link.Common.{◌%◌, ◌^◌, ◌≡◌, refl, true, [], ◌∷◌, ◌++◌, take, drop, codes}
use libya_link.Common.Result.{ok}
use libya_link.Speedtest.{read_response, write_response}
use libya_link.Speedtest.RoundTrip.{read-write_response}

written_ok : write_response true (codes "OK") ≡ 0 ∷ 0 ∷ 2 ∷ 79 ∷ 75 ∷ []
unfolding write_response
written_ok = refl

read-write_response_example :
    read_response (write_response true (codes "OK") ++ (7 ∷ []))
    ≡ ok (true, take (2 % 2 ^ 16) (codes "OK"), drop (2 % 2 ^ 16) (codes "OK") ++ (7 ∷ []))
read-write_response_example = read-write_response true (codes "OK") (7 ∷ [])
