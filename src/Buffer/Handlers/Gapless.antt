-- ===== src/Buffer/Handlers/Gapless.antt =====
-- What the buffer confirms over any run is a gapless chain of heights.
use go_norn.Prelude.{ℕ, ◌+◌, ◌<◌, ◌≡◌, refl, sym, ap, ◌∙◌, subst, List, [], ◌∷◌, ◌++◌, All}
use go_norn.Prelude.Int64.{modulus}
use go_norn.Prelude.Outcome.{done, >>=-eq-done, done-injective}
use go_norn.Common.{Block}
use go_norn.Calculator.{Calculator}
use go_norn.Buffer.{Env, BlockBuffer, new_block_buffer}
use go_norn.Buffer.Handlers.{State, Event, step, run}
use go_norn.Buffer.Handlers.Validity.{IsValid, Confirms, nothing, next}
use go_norn.Buffer.Handlers.Confirmation.{InRangeEvent, step-Advances}

-- The blocks of a list have the heights from + 1, from + 2, …, to.
abbrev pub Gapless : ℕ → List Block → ℕ → Type 0
Gapless from [] to = from ≡ to
Gapless from (x ∷ xs) to = (x.header.height ≡ from + 1) × Gapless (from + 1) xs to

Gapless-snoc :
    (from to : ℕ) (xs : List Block) (x : Block)
    → Gapless from xs to
    → x.header.height ≡ to + 1
    → Gapless from (xs ++ x ∷ []) (to + 1)
Gapless-snoc from to [] x g h = (h ∙ ap (λ (n : ℕ). n + 1) (sym g), ap (λ (n : ℕ). n + 1) g)
Gapless-snoc from to (y ∷ xs) x g h = (g.0, Gapless-snoc (from + 1) to xs x g.1 h)

module _ {env : Env} where
  Confirms-Gapless :
      (from : ℕ) (b c : BlockBuffer env)
      → Confirms b c
      → Gapless from b.pop_chan b.latest_block_height
      → Gapless from c.pop_chan c.latest_block_height
  Confirms-Gapless from b c (nothing p h) g = rw (p, h) g
  Confirms-Gapless from b c (next x p h l k) g =
      rw (p, l) (Gapless-snoc from b.latest_block_height b.pop_chan x g h)

  run-IsValid :
      (from : ℕ) (st st' : State env) (es : List Event)
      → All InRangeEvent es
      → IsValid st.buffer
      → Gapless from st.buffer.pop_chan st.buffer.latest_block_height
      → run st es ≡ done st'
      → IsValid st'.buffer × Gapless from st'.buffer.pop_chan st'.buffer.latest_block_height
  unfolding run
  run-IsValid from st st' [] r v g e =
      subst
        (λ (q : State env).
          IsValid q.buffer × Gapless from q.buffer.pop_chan q.buffer.latest_block_height)
        (done-injective e) (v, g)
  run-IsValid from st st' (x ∷ es) r v g e =
      let (mid, e1, e2) = >>=-eq-done (step st x) _ e in
      let a = step-Advances st mid x r.0 v e1 in
      run-IsValid from mid st' es r.1 a.valid
        (Confirms-Gapless from st.buffer mid.buffer a.confirms g) e2

pub new_block_buffer-IsValid :
    (env : Env) (latest : Block)
    → latest.header.height < modulus
    → IsValid (new_block_buffer env latest)
unfolding new_block_buffer
new_block_buffer-IsValid env latest r = record {
  keyed = λ h x e. cc;
  latest_height = refl;
  latest_hash = refl;
  in_range = r;
  queued = tt;
}

-- Whatever blocks arrive, in whatever order with the ticks of the second queue, and whatever their
-- claims: over a run that ends without a fault the confirmed blocks have the consecutive heights
-- above the block that the buffer began with, the last of them the latest height; every selected
-- block stands at its own height.
pub run-Gapless :
    (env : Env) (latest : Block) (calc : Calculator) (es : List Event) (st : State env)
    → latest.header.height < modulus
    → All InRangeEvent es
    → run (record { buffer = new_block_buffer env latest; calculator = calc }) es ≡ done st
    → IsValid st.buffer
      × Gapless latest.header.height st.buffer.pop_chan st.buffer.latest_block_height
unfolding new_block_buffer
run-Gapless env latest calc es st r rs e =
    run-IsValid latest.header.height _ st es rs (new_block_buffer-IsValid env latest r) refl e
