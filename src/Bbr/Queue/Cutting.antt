-- ===== src/Bbr/Queue/Cutting.antt =====
-- RemoveUpTo takes the entries below a number out of the map that the queue stands for.
use libya_link.Common.{
  ℕ, zero, suc, ◌+◌, ◌≤◌, ◌<◌, ◌≡◌, refl, sym, ap, ◌∙◌, inl, inr, true, false, not, ◌&&◌, Option,
  none, List, [], ◌∷◌, arith, ltb, ◌==◌, if◌then◌else◌, Bool-cases, length,
}
use libya_link.Common.Result.{ok}
use libya_link.Bbr.Ring.{Ring, len}
use libya_link.Bbr.Ring.Items.{items}
use libya_link.Bbr.Ring.View.{length-items}
use libya_link.Bbr.Queue.{
  EntryWrapper, Queue, Step, blank, drop_below, remove_up_to, invalid_packet_number,
}
use libya_link.Bbr.Queue.Map.{lookup, Numbered, lookup-tail, slots, entry_at, IsCounted, IsQueue}
use libya_link.Bbr.Queue.Clearup.{
  tail_of, Popped, pop-cases, rest_count, tail-IsCounted, shorter, Starts-Numbered, clearup-Leaves,
}

module _ {T : Type 0} (zero_entry : T) where
  -- The map from a number on.
  abbrev pub from : ℕ → (ℕ → Option T) → ℕ → Option T
  from n f k = let entry = f k in if ltb k n then none else entry

  drop_below-suc :
      (n fuel : ℕ) (q : Queue T) (x : EntryWrapper T) (r : Ring (EntryWrapper T))
      → Popped zero_entry q x r
      → drop_below zero_entry n (suc fuel) q ≡ (
          if not (q.first_packet == invalid_packet_number) && ltb q.first_packet n
          then drop_below zero_entry n fuel
              (tail_of zero_entry q r (rest_count zero_entry x q.number_of_present_entries))
          else ok q)
  unfolding drop_below tail_of rest_count
  drop_below-suc n fuel q x r (e, f, p, s, w) = rw (e, f, p) refl

  abbrev Cut : ℕ → Queue T → Step (Queue T) → Type 0
  Cut n q s =
      (q' : Queue T) × (s ≡ ok q')
      × IsCounted zero_entry q'
      × ((k : ℕ) → entry_at zero_entry q' k ≡ from n (entry_at zero_entry q) k)

  first_number :
      (first : ℕ) (ws : List (EntryWrapper T)) (x : EntryWrapper T) (xs : List (EntryWrapper T))
      → Numbered first ws
      → ws ≡ x ∷ xs
      → 0 < first
  first_number first [] x xs n e = cc
  first_number first (w ∷ ws) x xs n e = n

  nothing_below :
      (first n k : ℕ) (ws : List (EntryWrapper T))
      → ws ≡ []
      → lookup first ws k ≡ from n (lookup first ws) k
  nothing_below first n k [] e = ground arith
  nothing_below first n k (w ∷ ws) e = cc

  all_above :
      (first n k : ℕ) (ws : List (EntryWrapper T))
      → n ≤ first
      → lookup first ws k ≡ from n (lookup first ws) k
  all_above first n k ws h = elim (Bool-cases (ltb k n)) [
    | inl t ↦ let before : ltb k first ≡ true = ground arith in rw (t, before) refl
    | inr t ↦ rw t refl
  ]

  cut_tail :
      (first n k : ℕ) (x : EntryWrapper T) (ws : List (EntryWrapper T))
      → first < n
      → from n (lookup (first + 1) ws) k ≡ from n (lookup first (x ∷ ws)) k
  cut_tail first n k x ws h = elim (Bool-cases (ltb k n)) [
    | inl t ↦ rw t refl
    | inr t ↦
        let other : (k == first) ≡ false = ground arith in
        rw t (lookup-tail first x ws k ∙ rw other refl)
  ]

  drop_below-Cut :
      (n fuel : ℕ) (q : Queue T)
      → IsCounted zero_entry q
      → length (slots zero_entry q) ≤ fuel
      → Cut n q (drop_below zero_entry n fuel q)
  unfolding drop_below
  drop_below-Cut n zero q v enough = elim (pop-cases zero_entry q v.ring) [
    | inl (e, s) ↦ (q, refl, v, λ k. nothing_below q.first_packet n k (slots zero_entry q) s)
    | inr (x, r, (e, f, p, s, w)) ↦ absurd (omega (arith, enough, ap length s))
  ]
  drop_below-Cut n (suc fuel) q v enough = elim (pop-cases zero_entry q v.ring) [
    | inl (e, s) ↦ (q, rw e refl, v, λ k. nothing_below q.first_packet n k (slots zero_entry q) s)
    | inr (x, r, popped) ↦
        let some_first : 0 < q.first_packet =
          first_number q.first_packet (slots zero_entry q) x (items (blank zero_entry) r) v.numbered
            popped.3 in
        elim (Bool-cases (ltb q.first_packet n)) [
          | inl below ↦
              let behind : Queue T =
                tail_of zero_entry q r (rest_count zero_entry x q.number_of_present_entries) in
              let (q', e, w, cut) =
                drop_below-Cut n fuel behind (tail-IsCounted zero_entry q x r v popped)
                  (unfold tail_of in shorter zero_entry fuel q x r popped enough) in
              let tail_kept : (k : ℕ)
                  → from n (entry_at zero_entry behind) k ≡ from n (entry_at zero_entry q) k =
                λ k.
                  unfold tail_of in
                  (cut_tail q.first_packet n k x (items (blank zero_entry) r) (ground arith)
                    ∙ ap (λ ws. from n (lookup q.first_packet ws) k) (sym popped.3)) in
              let goes : (not (q.first_packet == invalid_packet_number) && ltb q.first_packet n)
                  ≡ true =
                ground arith in
              (
                q',
                drop_below-suc n fuel q x r popped
                    ∙ ap (λ t. if t then drop_below zero_entry n fuel behind else ok q) goes
                    ∙ e,
                w,
                λ k. cut k ∙ tail_kept k,
              )
          | inr from_here ↦
              let stops : (not (q.first_packet == invalid_packet_number) && ltb q.first_packet n)
                  ≡ false =
                ground arith in
              (
                q,
                drop_below-suc n fuel q x r popped ∙ rw stops refl,
                v,
                λ k. all_above q.first_packet n k (slots zero_entry q) (ground arith),
              )
        ]
  ]

  -- RemoveUpTo never panics. It takes the packet numbers below its argument, and no other, out of the
  -- map.
  pub remove_up_to-entry_at :
      (q : Queue T) (n : ℕ)
      → IsQueue zero_entry q
      → (q' : Queue T) × (remove_up_to zero_entry n q ≡ ok q')
        × IsQueue zero_entry q'
        × ((k : ℕ) → entry_at zero_entry q' k ≡ from n (entry_at zero_entry q) k)
  unfolding remove_up_to
  remove_up_to-entry_at q n v =
      let loose : IsCounted zero_entry q = record {
        ring = v.ring;
        counted = v.counted;
        numbered = Starts-Numbered zero_entry q.first_packet (slots zero_entry q) v.starts;
      } in
      let (m, e, w, cut) =
        drop_below-Cut n (len q.entries) q loose
          (omega (arith, length-items (blank zero_entry) q.entries v.ring)) in
      let (q', f, u, same) = clearup-Leaves zero_entry m w in
      (q', rw (e, f) refl, u, λ k. same k ∙ cut k)
