-- ===== src/Router/Slots.antt =====
-- The counter of a publisher is the number of its live connections.
use go_norn.Prelude.{
  ℕ, zero, suc, ◌+◌, ◌-◌, ◌≤◌, ◌≡◌, refl, sym, ap, ◌∙◌, arith, Bool, false, Option, none, some,
  List, [], ◌∷◌, if◌then◌else◌, length, set, length-set, ◌++◌, Bool-cases, Option-cases, inl, inr,
  leb_false→lt,
}
use go_norn.Router.{
  Conn, EventPublisher, conn_pool_size, publish_loop, publish, select_position, put,
  append_new_connection, create_new_event_publisher, full,
}

-- The live connections, in the order of their positions.
unfoldable pub live : List (Option Conn) → List Conn
live [] = []
live (none ∷ conns) = live conns
live (some c ∷ conns) = c ∷ live conns

pub record IsValid (e : EventPublisher) : Type 0 where
  pub size : length e.conns ≡ conn_pool_size
  pub counted : e.count ≡ length (live e.conns)

length-live : (conns : List (Option Conn)) → length (live conns) ≤ length conns
unfolding live
length-live [] = omega arith
length-live (none ∷ conns) = omega (arith, length-live conns)
length-live (some c ∷ conns) = omega (arith, length-live conns)

-- The connections that a write reaches.
unfoldable pub reached : (Conn → Bool) → List Conn → List Conn
reached write [] = []
reached write (c ∷ cs) = if write c then c ∷ reached write cs else reached write cs

publish_loop_lem :
    (write : Conn → Bool) (conns : List (Option Conn)) (count : ℕ)
    → let r = publish_loop write conns count in
      (live r.0 ≡ reached write (live conns))
      × (r.2 ≡ reached write (live conns))
      × (length r.0 ≡ length conns)
      × (length (live conns) ≤ count → r.1 + length (live conns) ≡ count + length (live r.0))
unfolding publish_loop live reached
publish_loop_lem write [] count = (refl, refl, refl, λ h. omega arith)
publish_loop_lem write (none ∷ conns) count =
    let v = publish_loop_lem write conns count in (v.0, v.1, ap suc v.2, v.3)
publish_loop_lem write (some c ∷ conns) count = elim (Bool-cases (write c)) [
  | inl ok ↦
      let v = publish_loop_lem write conns count in
      rw ok (
        ap (λ l. c ∷ l) v.0,
        ap (λ l. c ∷ l) v.1,
        ap suc v.2,
        λ h. omega (arith, v.3 (omega (arith, h))),
      )
  | inr bad ↦
      let v = publish_loop_lem write conns (count - 1) in
      rw bad (v.0, v.1, ap suc v.2, λ h. omega (arith, h, v.3 (omega (arith, h))))
]

-- Publish reaches exactly the live connections that can be written to, in the order of their positions, drops
-- the others, and keeps the counter equal to the number of live connections.
pub publish-IsValid :
    (write : Conn → Bool) (e : EventPublisher)
    → IsValid e
    → IsValid (publish write e).0
      × (live (publish write e).0.conns ≡ reached write (live e.conns))
      × ((publish write e).1 ≡ reached write (live e.conns))
unfolding publish
publish-IsValid write e v =
    let p = publish_loop_lem write e.conns e.count in
    (
      record {
        size = p.2 ∙ v.size;
        counted = omega (arith, v.counted, p.3 (omega (arith, v.counted)));
      },
      p.0,
      p.1,
    )

select_position-none :
    (conns : List (Option Conn)) → select_position conns ≡ none → length (live conns) ≡ length conns
unfolding select_position live
select_position-none [] e = refl
select_position-none (none ∷ conns) e = cc e
select_position-none (some c ∷ conns) e = elim (Option-cases (select_position conns)) [
  | inl h ↦ omega (arith, select_position-none conns h)
  | inr (i, h) ↦ cc (rw h at e)
]

-- A new connection among the others.
pub record Inserted (c : Conn) (olds news : List Conn) : Type 0 where
  pub before : List Conn
  pub after : List Conn
  pub old : olds ≡ before ++ after
  pub new : news ≡ before ++ c ∷ after

select_position-Inserted :
    (conns : List (Option Conn)) (c : Conn) (i : ℕ)
    → select_position conns ≡ some i
    → Inserted c (live conns) (live (set conns i (some c)))
unfolding select_position live
select_position-Inserted [] c i e = cc e
select_position-Inserted (none ∷ conns) c zero e = record {
  before = [];
  after = live conns;
  old = refl;
  new = refl;
}
select_position-Inserted (none ∷ conns) c (suc i) e = cc e
select_position-Inserted (some d ∷ conns) c i e = elim (Option-cases (select_position conns)) [
  | inl h ↦ cc (rw h at e)
  | inr (j, h) ↦
      let v = select_position-Inserted conns c j h in
      let next : suc j ≡ i = cc (rw h at e) in
      rw⁻¹ next (record {
        before = d ∷ v.before;
        after = v.after;
        old = ap (λ l. d ∷ l) v.old;
        new = ap (λ l. d ∷ l) v.new;
      })
]

length-Inserted :
    {c : Conn} {olds news : List Conn} → Inserted c olds news → length news ≡ length olds + 1
length-Inserted {c} v =
    ap length v.new ∙ sym (ap (λ (n : ℕ). n + 1) (ap length v.old) ∙ one_more v.before v.after)
  where
    one_more : (xs ys : List Conn) → length (xs ++ ys) + 1 ≡ length (xs ++ c ∷ ys)
    one_more [] ys = omega arith
    one_more (x ∷ xs) ys = omega (arith, one_more xs ys)

-- On a publisher that is not full, AppendNewConnection finds a position: the new connection is added to
-- the live ones, no other is lost, and the counter goes with them.
pub append_new_connection-IsValid :
    (e : EventPublisher) (c : Conn)
    → IsValid e
    → full e ≡ false
    → IsValid (append_new_connection e c)
      × Inserted c (live e.conns) (live (append_new_connection e c).conns)
unfolding append_new_connection put
append_new_connection-IsValid e c v room = elim (Option-cases (select_position e.conns)) [
  | inl h ↦
      absurd
        (omega (arith, leb_false→lt _ _ room, v.size, v.counted, select_position-none e.conns h))
  | inr (i, h) ↦
      let ins = select_position-Inserted e.conns c i h in
      let valid : IsValid (put e c (some i)) = record {
        size = length-set e.conns i (some c) ∙ v.size;
        counted = omega (arith, v.counted, length-Inserted ins);
      } in
      rw h (valid, ins)
]

pub create_new_event_publisher-IsValid : IsValid create_new_event_publisher
unfolding live
create_new_event_publisher-IsValid = record { size = refl; counted = refl }
