-- ===== src/Obfs/RoundTrip.antt =====
-- A packet that is obfuscated and deobfuscated is the packet.
use libya_link.Common.{
  ℕ, zero, suc, ◌+◌, ◌-◌, ◌%◌, ◌≤◌, ◌<◌, ◌≡◌, refl, sym, ap, ◌∙◌, inl, inr, Bool, true, false, ◌||◌,
  List, [], ◌∷◌, ◌++◌, arith, ltb, leb, ◌==◌, if◌then◌else◌, Bool-cases, length, length-append,
  get_or, take, drop, All,
}
use Prim.Native.Nat.{bit_xor}
use libya_link.Common.Buffer.{overwrite-drop, take-append_length, take-append_eq, drop-append_eq}
use libya_link.Obfs.{Obfuscator, key, xor_key, obfuscate, deobfuscate, sm_salt_len, sm_key_len}

first_true : (a b : Bool) → (if a then b else false) ≡ true → a ≡ true
first_true true b h = refl
first_true false b h = h

second_true : (a b : Bool) → (if a then b else false) ≡ true → b ≡ true
second_true true b h = h
second_true false b h = cc

-- Whether `f` leaves every number below a bound as it is.
fixes : (ℕ → ℕ) → ℕ → Bool
fixes f zero = true
fixes f (suc bound) = let rest = fixes f bound in if f bound == bound then rest else false

fixes-fixed : (f : ℕ → ℕ) (c bound : ℕ) → c < bound → fixes f bound ≡ true → f c ≡ c
unfolding fixes
fixes-fixed f c zero inside h = elim inside [ ]
fixes-fixed f c (suc bound) inside h = elim (Bool-cases (c == bound)) [
  | inl last ↦ let same : c ≡ bound = ground arith in rw same (ground arith)
  | inr before ↦ fixes-fixed f c bound (ground arith) (ground arith)
]

-- The keys below a bound, each of which a byte is xored with twice.
every_key : ℕ → Bool
unfolding fixes
every_key zero = true
every_key (suc bound) =
    let rest = every_key bound in
    if fixes (λ c. bit_xor (bit_xor c bound) bound) 256 then rest else false

every_key-fixes :
    (k bound : ℕ)
    → every_key bound ≡ true
    → k < bound
    → fixes (λ c. bit_xor (bit_xor c k) k) 256 ≡ true
unfolding every_key
every_key-fixes k zero h inside = elim inside [ ]
every_key-fixes k (suc bound) h inside = elim (Bool-cases (k == bound)) [
  | inl last ↦
      let same : k ≡ bound = ground arith in
      rw same (first_true (fixes (λ c. bit_xor (bit_xor c bound) bound) 256) (every_key bound) h)
  | inr before ↦
      every_key-fixes k bound
        (second_true (fixes (λ c. bit_xor (bit_xor c bound) bound) 256) (every_key bound) h)
        (ground arith)
]

every_byte : every_key 256 ≡ true
unfolding every_key fixes
every_byte = refl

xor_twice : (c k : ℕ) → c < 256 → k < 256 → bit_xor (bit_xor c k) k ≡ c
xor_twice c k hc hk =
    fixes-fixed (λ b. bit_xor (bit_xor b k) k) c 256 hc (every_key-fixes k 256 every_byte hk)

length-xor_key : (k : List ℕ) (i : ℕ) (input : List ℕ) → length (xor_key k i input) ≡ length input
unfolding xor_key
length-xor_key k i [] = refl
length-xor_key k i (c ∷ input) = ap suc (length-xor_key k (suc i) input)

abbrev AllBytes : List ℕ → Type 0
AllBytes = All (λ b. b < 256)

get_or-IsByte : (k : List ℕ) (i : ℕ) → AllBytes k → get_or k i 0 < 256
get_or-IsByte [] i h = omega arith
get_or-IsByte (b ∷ k) zero h = h.0
get_or-IsByte (b ∷ k) (suc i) h = get_or-IsByte k i h.1

xor_key_twice :
    (k : List ℕ) (i : ℕ) (input : List ℕ)
    → AllBytes k
    → AllBytes input
    → xor_key k i (xor_key k i input) ≡ input
unfolding xor_key
xor_key_twice k i [] hk h = refl
xor_key_twice k i (c ∷ input) hk h = rw (
  xor_twice c (get_or k (i % sm_key_len) 0) h.0 (get_or-IsByte k (i % sm_key_len) hk),
  xor_key_twice k (suc i) input hk h.1,
)

module _ (o : Obfuscator) (salt input out out' : List ℕ) where
  -- The packet: the salt, and behind it the data under the key.
  abbrev packet : List ℕ
  packet = salt ++ xor_key (key o salt) 0 input

  module _ (eight : length salt ≡ sm_salt_len) where
    length-packet : length packet ≡ length input + sm_salt_len
    length-packet =
        length-append salt (xor_key (key o salt) 0 input)
        ∙ omega (arith, eight, length-xor_key (key o salt) 0 input)

    obfuscate-packet :
        length input + sm_salt_len ≤ length out
        → obfuscate o salt input out
          ≡ (packet ++ drop (length packet) out, length input + sm_salt_len)
    unfolding obfuscate key
    obfuscate-packet h =
        rw (fits) (ap (λ t. (t, length input + sm_salt_len)) (overwrite-drop out packet room))
      where
        fits : ltb (length out) (length input + sm_salt_len) ≡ false
        fits = ground arith

        room : length packet ≤ length out
        room = omega (arith, length-packet)

    deobfuscate-packet :
        0 < length input
        → length input ≤ length out'
        → AllBytes (key o salt)
        → AllBytes input
        → deobfuscate o packet out' ≡ (input ++ drop (length input) out', length input)
    unfolding deobfuscate
    deobfuscate-packet some_data h hk hi =
        rw
          (
            accepted,
            take-append_eq sm_salt_len salt (xor_key (key o salt) 0 input) (sym eight),
            drop-append_eq sm_salt_len salt (xor_key (key o salt) 0 input) (sym eight),
            xor_key_twice (key o salt) 0 input hk hi,
            overwrite-drop out' input h,
          )
          (ap (λ n. (input ++ drop (length input) out', n)) (omega (arith, length-packet)))
      where
        accepted :
            (leb (length packet) sm_salt_len || ltb (length out') (length packet - sm_salt_len))
            ≡ false
        accepted = ground (arith, length-packet)

-- Obfuscate into a buffer that is large enough writes the salt and as many bytes as it was given.
-- Deobfuscate of those bytes, with the same pre-shared key, gives back exactly the data, whatever
-- the salt, for every packet with some data.
pub deobfuscate-obfuscate :
    (o : Obfuscator) (salt input out out' : List ℕ)
    → length salt ≡ sm_salt_len
    → ((t : List ℕ) → All (λ b. b < 256) (o.hash t))
    → All (λ b. b < 256) input
    → 0 < length input
    → length input + sm_salt_len ≤ length out
    → length input ≤ length out'
    → ((obfuscate o salt input out).1 ≡ length input + sm_salt_len)
      × ((deobfuscate o (take (length input + sm_salt_len) (obfuscate o salt input out).0) out').1
          ≡ length input)
      × (take
            (length input)
            (deobfuscate o
              (take (length input + sm_salt_len) (obfuscate o salt input out).0)
              out').0
          ≡ input)
unfolding key
deobfuscate-obfuscate o salt input out out' eight hash_bytes bytes some_data room room' =
    rw
      (
        obfuscate-packet o salt input out out' eight room,
        take-append_eq (length input + sm_salt_len) (packet o salt input out out')
            (drop (length (packet o salt input out out')) out)
            (sym (length-packet o salt input out out' eight)),
        deobfuscate-packet o salt input out out' eight some_data room' (hash_bytes (o.psk ++ salt))
            bytes,
      )
      (refl, refl, take-append_length input (drop (length input) out'))

-- A packet with no more than the salt is refused: Deobfuscate returns 0 and writes nothing.
pub deobfuscate_refuses :
    (o : Obfuscator) (input out : List ℕ)
    → length input ≤ sm_salt_len
    → deobfuscate o input out ≡ (out, 0)
unfolding deobfuscate
deobfuscate_refuses o input out h = ground arith
