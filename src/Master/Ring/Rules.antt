-- ===== src/Master/Ring/Rules.antt =====
-- The ring's operations by the bytes that it holds, for the serial module.
use ammc.Base.{ℕ, ◌<◌, ◌≡◌, inl, inr, refl, ap, ◌∙◌, some, List, [], ◌∷◌, ◌++◌, length, arith}
use ammc.Queue.Defs.{pop as get, step, pop_oldest}
use ammc.Master.Ring.{Ring, is_empty, is_full, pop, push}
use ammc.Master.Ring.Valid.{IsValid}
use ammc.Master.Ring.Refine.{
  contents, length-contents, contents-push, queries, used_full, call, call_refines,
}

pub is_full-room : (rb : Ring) → IsValid rb → length (contents rb) < rb.size → is_full rb ≡ 0
is_full-room rb v h = ground (arith, queries rb v, length-contents rb)

pub contents-push_room :
    (rb : Ring) (x : ℕ)
    → IsValid rb
    → length (contents rb) < rb.size
    → contents (push rb x).1 ≡ contents rb ++ x ∷ []
contents-push_room rb x v h = elim v.state [
  | inl e ↦ contents-push rb x v e
  | inr (e, _) ↦ absurd (omega (arith, used_full rb e, length-contents rb))
]

pub size-push : (rb : Ring) (x : ℕ) → (push rb x).1.size ≡ rb.size
unfolding push
size-push rb x = ground arith

pub size-pop : (rb : Ring) → (pop rb).2.size ≡ rb.size
unfolding pop
size-pop rb = ground arith

pub is_empty-cons :
    (rb : Ring) (x : ℕ) (q : List ℕ) → IsValid rb → contents rb ≡ x ∷ q → is_empty rb ≡ 0
is_empty-cons rb x q v e = ground (arith, queries rb v, length-contents rb, ap length e)

pub is_empty-nil : (rb : Ring) → IsValid rb → contents rb ≡ [] → is_empty rb ≡ 1
is_empty-nil rb v e = ground (arith, queries rb v, length-contents rb, ap length e)

pub pop-cons :
    (rb : Ring) (x : ℕ) (q : List ℕ)
    → IsValid rb
    → contents rb ≡ x ∷ q
    → ((pop rb).1 ≡ some x) × (contents (pop rb).2 ≡ q)
unfolding call
pop-cons rb x q v e =
    let shown = call_refines rb get v in
    let expected : step rb.size (contents rb) get ≡ ((0, some x), q) =
      unfold step pop_oldest in rw e refl in
    (ap (λ t. t.0.1) (shown ∙ expected), ap (λ t. t.1) (shown ∙ expected))
