-- ===== src/Session/Reconnect.antt =====
-- reconnectableClientImpl of core/client/reconnect.go. A client is a number. The two critical
-- sections of clientDo are two operations, between which other goroutines run; what configFunc and
-- NewClient answer is an argument. The calls that clients receive are recorded, the last one first.
pub mod Runs
use libya_link.Common.{
  ℕ, suc, ◌+◌, ◌-◌, ◌≡◌, refl, sym, ap, ◌∙◌, inl, inr, Bool, true, false, Option, none, some, List,
  [], ◌∷◌, arith, ◌==◌, if◌then◌else◌, Bool-cases,
}
use libya_link.Common.Result.{Result, ok, err, panic}

pub data Call : Type 0 where
  created : ℕ → Call
  connected : ℕ → Call
  closed_client : ℕ → Call

-- ClosedError, an error of configFunc, an error of NewClient.
pub data ReconnectError (E : Type 0) : Type 0 where
  closed_error : ReconnectError E
  config_error : E → ReconnectError E
  connect_error : E → ReconnectError E

-- What configFunc and NewClient answer: the new client, or an error of either.
pub data Attempt (E : Type 0) : Type 0 where
  no_config : E → Attempt E
  no_client : E → Attempt E
  new_client : ℕ → Attempt E

-- `notifies` is whether connectedFunc is set.
pub record Reconnectable : Type 0 where
  pub notifies : Bool
  pub client : Option ℕ
  pub count : ℕ
  pub is_closed : Bool
  pub calls : List Call

abbrev pub call_client : (ℕ → Call) → Reconnectable → Reconnectable
call_client c s = elim s.client [ none ↦ s | some k ↦ record s { calls = c k ∷ s.calls } ]

abbrev pub notified : Reconnectable → Reconnectable
notified s = if s.notifies then record s { calls = connected s.count ∷ s.calls } else s

-- The client that clientDo works with, or its error.
abbrev pub Chosen : Type 0 → Type 0
Chosen E = Result (ReconnectError E) (Option ℕ)

module _ {E : Type 0} where
  -- Behind the closing of the old client; NewClient gives nil with its error.
  unfoldable pub attempt : Attempt E → Reconnectable → Reconnectable × Option (ReconnectError E)
  attempt (no_config e) s = (s, some (config_error e))
  attempt (no_client e) s = (record s { client = none }, some (connect_error e))
  attempt (new_client k) s = (
    notified (record s { client = some k; count = s.count + 1; calls = created k ∷ s.calls }),
    none,
  )

  unfoldable pub reconnect : Attempt E → Reconnectable → Reconnectable × Option (ReconnectError E)
  unfolding attempt
  reconnect a s = attempt a (call_client closed_client s)

  -- NewReconnectableClient; the attempt is made only where the client is not lazy.
  unfoldable pub new_reconnectable_client :
      Bool → Attempt E → Bool → Result (ReconnectError E) Reconnectable
  unfolding reconnect
  new_reconnectable_client notifies a lazy =
      let s : Reconnectable = record {
        notifies = notifies;
        client = none;
        count = 0;
        is_closed = false;
        calls = [];
      } in
      let (s', e) = reconnect a s in if lazy then ok s else elim e [ none ↦ ok s' | some x ↦ err x ]

  abbrev pub chosen : Reconnectable × Option (ReconnectError E) → Reconnectable × Chosen E
  chosen (s, none) = (s, ok s.client)
  chosen (s, some e) = (s, err e)

  -- clientDo up to the call of `f`.
  unfoldable pub begin_do : Attempt E → Reconnectable → Reconnectable × Chosen E
  unfolding reconnect
  begin_do a s =
      if s.is_closed
      then (s, err closed_error)
      else elim s.client [ none ↦ chosen (reconnect a s) | some k ↦ (s, ok (some k)) ]

-- clientDo behind the call of `f` on `k`, where that gave a ClosedError.
unfoldable pub forget : ℕ → Reconnectable → Reconnectable
forget k s = elim s.client [ none ↦ s | some c ↦ if c == k then record s { client = none } else s ]

-- The error of Close is that of the client.
unfoldable pub close : Reconnectable → Reconnectable
close s = call_client closed_client (record s { is_closed = true })

-- One critical section of a goroutine.
pub data Step (E : Type 0) : Reconnectable → Reconnectable → Type 0 where
  begins : (a : Attempt E) (s : Reconnectable) → Step E s (begin_do a s).0
  forgets : (k : ℕ) (s : Reconnectable) → Step E s (forget k s)
  closes : (s : Reconnectable) → Step E s (close s)

pub data Run (E : Type 0) : Reconnectable → Reconnectable → Type 0 where
  done : (s : Reconnectable) → Run E s s
  step : (s m s' : Reconnectable) → Run E s m → Step E m s' → Run E s s'

-- The clients that were created.
abbrev pub creations : List Call → ℕ
creations [] = 0
creations (created k ∷ calls) = suc (creations calls)
creations (connected n ∷ calls) = creations calls
creations (closed_client k ∷ calls) = creations calls

abbrev fields : Bool → Option ℕ → ℕ → Bool → List Call → Reconnectable
fields notifies client count is_closed calls = record {
  notifies = notifies;
  client = client;
  count = count;
  is_closed = is_closed;
  calls = calls;
}

forget-fields :
    (k : ℕ) (notifies : Bool) (client : Option ℕ) (count : ℕ) (shut : Bool) (calls : List Call)
    → ((forget k (fields notifies client count shut calls)).calls ≡ calls)
      × ((forget k (fields notifies client count shut calls)).is_closed ≡ shut)
      × ((forget k (fields notifies client count shut calls)).count ≡ count)
unfolding forget
forget-fields k notifies none count shut calls = (refl, refl, refl)
forget-fields k notifies (some c) count shut calls = elim (Bool-cases (c == k)) [
  | inl t ↦ rw t (refl, refl, refl)
  | inr t ↦ rw t (refl, refl, refl)
]

close-fields :
    (notifies : Bool) (client : Option ℕ) (count : ℕ) (shut : Bool) (calls : List Call)
    → (creations (close (fields notifies client count shut calls)).calls ≡ creations calls)
      × ((close (fields notifies client count shut calls)).is_closed ≡ true)
      × ((close (fields notifies client count shut calls)).count ≡ count)
unfolding close
close-fields notifies none count shut calls = (refl, refl, refl)
close-fields notifies (some c) count shut calls = (refl, refl, refl)

module _ {E : Type 0} where
  begin_do-count :
      (a : Attempt E) (notifies : Bool) (client : Option ℕ) (count : ℕ) (shut : Bool)
      (calls : List Call)
      → count ≡ creations calls
      → (begin_do a (fields notifies client count shut calls)).0.count
        ≡ creations (begin_do a (fields notifies client count shut calls)).0.calls
  unfolding begin_do reconnect attempt
  begin_do-count a notifies client count true calls e = e
  begin_do-count a notifies (some k) count false calls e = e
  begin_do-count (no_config x) notifies none count false calls e = e
  begin_do-count (no_client x) notifies none count false calls e = e
  begin_do-count (new_client k) true none count false calls e = omega (arith, e)
  begin_do-count (new_client k) false none count false calls e = omega (arith, e)

  step-count :
      (s s' : Reconnectable)
      → Step E s s'
      → s.count ≡ creations s.calls
      → s'.count ≡ creations s'.calls
  step-count _ _ (begins a s) e = begin_do-count a s.notifies s.client s.count s.is_closed s.calls e
  step-count _ _ (forgets k s) e =
      let (calls, shut, count) = forget-fields k s.notifies s.client s.count s.is_closed s.calls in
      count ∙ e ∙ ap creations (sym calls)
  step-count _ _ (closes s) e =
      let (calls, shut, count) = close-fields s.notifies s.client s.count s.is_closed s.calls in
      count ∙ e ∙ sym calls

  -- However the goroutines interleave, where the count is that of the clients that were created, it
  -- stays so: an attempt that fails is not counted.
  pub Run-count :
      (s s' : Reconnectable)
      → Run E s s'
      → s.count ≡ creations s.calls
      → s'.count ≡ creations s'.calls
  Run-count _ _ (done s) e = e
  Run-count _ _ (step s m s' r t) e = step-count m s' t (Run-count s m r e)

  begin_do-closed :
      (a : Attempt E) (s : Reconnectable)
      → s.is_closed ≡ true
      → begin_do a s ≡ (s, err closed_error)
  unfolding begin_do
  begin_do-closed a s e = ground arith

  step-closed :
      (s s' : Reconnectable)
      → Step E s s'
      → s.is_closed ≡ true
      → (s'.is_closed ≡ true) × (creations s'.calls ≡ creations s.calls)
  step-closed _ _ (begins a s) e =
      let same : (begin_do a s).0 ≡ s = ap (λ p. p.0) (begin_do-closed a s e) in
      (
        ap (λ (t : Reconnectable). t.is_closed) same ∙ e,
        ap (λ (t : Reconnectable). creations t.calls) same,
      )
  step-closed _ _ (forgets k s) e =
      let (calls, shut, count) = forget-fields k s.notifies s.client s.count s.is_closed s.calls in
      (shut ∙ e, ap creations calls)
  step-closed _ _ (closes s) e =
      let (calls, shut, count) = close-fields s.notifies s.client s.count s.is_closed s.calls in
      (shut, calls)

  still-closed :
      (s s' : Reconnectable)
      → Run E s s'
      → s.is_closed ≡ true
      → (s'.is_closed ≡ true) × (creations s'.calls ≡ creations s.calls)
  still-closed _ _ (done s) e = (e, refl)
  still-closed _ _ (step s m s' r t) e =
      let (shut, same) = still-closed s m r e in
      let (shut', same') = step-closed m s' t shut in (shut', same' ∙ same)

  -- However the goroutines interleave, a closed client stays closed: no run after Close creates
  -- another client, and clientDo answers ClosedError.
  pub Run-closed :
      (s s' : Reconnectable) (a : Attempt E)
      → Run E s s'
      → s.is_closed ≡ true
      → (s'.is_closed ≡ true)
        × (creations s'.calls ≡ creations s.calls)
        × (begin_do a s' ≡ (s', err closed_error))
  Run-closed s s' a r e =
      let (shut, same) = still-closed s s' r e in (shut, same, begin_do-closed a s' shut)
