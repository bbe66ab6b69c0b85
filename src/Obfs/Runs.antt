-- ===== src/Obfs/Runs.antt =====
-- Runs of the Salamander obfuscator, and the theorems at concrete inputs.
use libya_link.Common.{
  ℕ, zero, suc, ◌+◌, ◌-◌, ◌%◌, ◌<◌, ◌≡◌, refl, List, [], ◌∷◌, arith, get_or, take, replicate, All,
}
use libya_link.Obfs.{Obfuscator, key, xor_key, obfuscate, deobfuscate}
use libya_link.Obfs.RoundTrip.{deobfuscate-obfuscate}

-- With a hash that depends on its first byte only.
abbrev sum : List ℕ → List ℕ
sum t = replicate 32 (get_or t 0 0 % 256)

abbrev sample : Obfuscator
sample = record { psk = 77 ∷ 1 ∷ 2 ∷ 3 ∷ []; hash = sum }

abbrev salt : List ℕ
salt = 1 ∷ 2 ∷ 3 ∷ 4 ∷ 5 ∷ 6 ∷ 7 ∷ 8 ∷ []

replicate-All : (n b : ℕ) → b < 256 → All (λ c. c < 256) (replicate n b)
replicate-All zero b h = tt
replicate-All (suc n) b h = (h, replicate-All n b h)

obfuscate-sample :
    obfuscate sample salt (104 ∷ 105 ∷ []) (replicate 12 0)
    ≡ (1 ∷ 2 ∷ 3 ∷ 4 ∷ 5 ∷ 6 ∷ 7 ∷ 8 ∷ 37 ∷ 36 ∷ 0 ∷ 0 ∷ [], 10)
unfolding obfuscate key xor_key libya_link.Common.Buffer.overwrite
obfuscate-sample = refl

deobfuscate-obfuscate_example :
    ((obfuscate sample salt (104 ∷ 105 ∷ []) (replicate 12 0)).1 ≡ 10)
    × ((deobfuscate sample
          (take 10 (obfuscate sample salt (104 ∷ 105 ∷ []) (replicate 12 0)).0)
          (replicate 4 0)).1
        ≡ 2)
    × (take 2
          (deobfuscate sample
            (take 10 (obfuscate sample salt (104 ∷ 105 ∷ []) (replicate 12 0)).0)
            (replicate 4 0)).0
        ≡ 104 ∷ 105 ∷ [])
deobfuscate-obfuscate_example =
    deobfuscate-obfuscate sample salt (104 ∷ 105 ∷ []) (replicate 12 0) (replicate 4 0) refl
      (λ t. replicate-All 32 (get_or t 0 0 % 256) (omega arith)) (omega arith) (omega arith)
      (omega arith) (omega arith)
