-- ===== src/Speedtest.antt =====
-- extras/outbounds/speedtest/protocol.go: the messages of the speed test. A write gives the bytes
-- that are written; a read takes them from the bytes to come. The functions for the upload are
-- those for the download, but for the type byte.
pub mod RoundTrip
mod Runs
use libya_link.Common.{
  ℕ, ◌+◌, ◌*◌, ◌/◌, ◌%◌, ◌^◌, Bool, true, List, [], ◌∷◌, ◌++◌, ◌==◌, if◌then◌else◌, length,
}
use libya_link.Common.Result.{Result, ok, ◌>>=◌}
use libya_link.Protocol.Errors.{Error}
use libya_link.Protocol.Reader.{read_full}
use libya_link.Protocol.Udp.{be32, be16, read_be}

abbrev pub type_download : ℕ
type_download = 1

abbrev pub type_upload : ℕ
type_upload = 2

unfoldable pub read_download_request : List ℕ → Result Error (ℕ × List ℕ)
read_download_request s = read_be 4 s

unfoldable pub write_download_request : ℕ → List ℕ
write_download_request l = type_download ∷ be32 l

unfoldable pub read_upload_request : List ℕ → Result Error (ℕ × List ℕ)
read_upload_request s = read_be 4 s

unfoldable pub write_upload_request : ℕ → List ℕ
write_upload_request l = type_upload ∷ be32 l

abbrev is_zero_byte : List ℕ → Bool
is_zero_byte [] = true
is_zero_byte (b ∷ bs) = b == 0

-- readDownloadResponse: the status, the message, and what is left to read.
unfoldable pub read_response : List ℕ → Result Error (Bool × List ℕ × List ℕ)
read_response s = do
  (status, s) ← read_full 1 s
  (msg_len, s) ← read_be 2 s
  (if msg_len == 0
      then ok (is_zero_byte status, [], s)
      else (do (msg, s) ← read_full msg_len s; ok (is_zero_byte status, msg, s)))

-- writeDownloadResponse: the length is a uint16.
unfoldable pub write_response : Bool → List ℕ → List ℕ
write_response success msg = (if success then 0 else 1) ∷ (be16 (length msg % 2 ^ 16) ++ msg)

abbrev pub millisecond : ℕ
millisecond = 1000000

-- The duration in nanoseconds, and the bytes.
unfoldable pub read_upload_summary : List ℕ → Result Error (ℕ × ℕ × List ℕ)
read_upload_summary s = do
  (duration, s) ← read_be 4 s
  (l, s) ← read_be 4 s
  ok (duration * millisecond, l, s)

unfoldable pub write_upload_summary : ℕ → ℕ → List ℕ
write_upload_summary duration l = be32 (duration / millisecond % 2 ^ 32) ++ be32 l
