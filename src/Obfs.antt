-- ===== src/Obfs.antt =====
-- extras/obfs/salamander.go. The hash blake2b.Sum256 is a parameter, and so are the eight random
-- bytes that a packet's salt is made of. Slices are lists of bytes; a key is 32 bytes.
pub mod RoundTrip
pub mod Conn
pub mod Runs
use libya_link.Common.{
  ℕ, suc, ◌+◌, ◌-◌, ◌%◌, ◌||◌, Option, none, some, List, [], ◌∷◌, ◌++◌, ltb, leb, if◌then◌else◌,
  length, get_or, take, drop,
}
use Prim.Native.Nat.{bit_xor}
use libya_link.Common.Buffer.{overwrite}

abbrev pub sm_psk_min_len : ℕ
sm_psk_min_len = 4

abbrev pub sm_salt_len : ℕ
sm_salt_len = 8

abbrev pub sm_key_len : ℕ
sm_key_len = 32

-- `hash` is blake2b.Sum256.
pub record Obfuscator : Type 0 where
  pub psk : List ℕ
  pub hash : List ℕ → List ℕ

-- `none` is ErrPSKTooShort.
unfoldable pub new_salamander_obfuscator : List ℕ → (List ℕ → List ℕ) → Option Obfuscator
new_salamander_obfuscator psk hash =
    if ltb (length psk) sm_psk_min_len then none else some (record { psk = psk; hash = hash })

unfoldable pub key : Obfuscator → List ℕ → List ℕ
key o salt = o.hash (o.psk ++ salt)

-- The loop `out[i + k] = c ^ key[i % smKeyLen]` over `input`, from index `i` on.
unfoldable pub xor_key : List ℕ → ℕ → List ℕ → List ℕ
xor_key k i [] = []
xor_key k i (c ∷ input) = bit_xor c (get_or k (i % sm_key_len) 0) ∷ xor_key k (suc i) input

-- The new contents of `out` and the number of bytes written; `salt` is what RandSrc.Read gave.
unfoldable pub obfuscate : Obfuscator → List ℕ → List ℕ → List ℕ → List ℕ × ℕ
unfolding key
obfuscate o salt input out =
    let out_len = length input + sm_salt_len in
    if ltb (length out) out_len
    then (out, 0)
    else (overwrite out (salt ++ xor_key (key o salt) 0 input), out_len)

unfoldable pub deobfuscate : Obfuscator → List ℕ → List ℕ → List ℕ × ℕ
unfolding key
deobfuscate o input out =
    let out_len = length input - sm_salt_len in
    if leb (length input) sm_salt_len || ltb (length out) out_len then (out, 0) else (
      overwrite out (xor_key (key o (take sm_salt_len input)) 0 (drop sm_salt_len input)),
      out_len,
    )
