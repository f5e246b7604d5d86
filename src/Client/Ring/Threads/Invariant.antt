-- ===== src/Client/Ring/Threads/Invariant.antt =====
-- What holds whenever several threads call the ring, in any order of their steps.
use mathlib.Core.Path.{subst}
use native.Mathlib.Decide.{ℕ_discrete}
use ammc.Base.{
  ℕ, true, none, some, List, [], ◌∷◌, ◌++◌, ◌≡◌, ◌≢◌, refl, sym, ap, ap₂, ◌∙◌, ==_iff, ==_ne,
}
use ammc.Queue.{Op, Reply}
use ammc.Queue.Interface.{replies}
use ammc.Client.Ring.{Ring}
use ammc.Client.Ring.Valid.{IsValid}
use ammc.Client.Ring.Refine.{call as whole_call, call-IsValid, ring as queue}
use ammc.Client.Ring.Threads.{
  Pc, idle, waiting, entered, inside, working, leaving, access, update, System, Step, call, acquire,
  work, release,
}
use ammc.Client.Ring.Threads.Partial.{Partial, Partial-access}

-- The ring after whole calls.
unfoldable pub after : Ring → List Op → Ring
after rb [] = rb
after rb (op ∷ ops) = after (whole_call rb op).1 ops

after-append :
    (rb : Ring) (ops : List Op) (op : Op)
    → after rb (ops ++ op ∷ []) ≡ (whole_call (after rb ops) op).1
unfolding after
after-append rb [] op = refl
after-append rb (o ∷ ops) op = after-append (whole_call rb o).1 ops op

replies-append :
    (rb : Ring) (ops : List Op) (op : Op)
    → replies queue rb (ops ++ op ∷ [])
      ≡ replies queue rb ops ++ (whole_call (after rb ops) op).0 ∷ []
unfolding after replies
replies-append rb [] op = refl
replies-append rb (o ∷ ops) op =
    ap (λ rs. (whole_call rb o).0 ∷ rs) (replies-append (whole_call rb o).1 ops op)

pub after-IsValid : (rb : Ring) (ops : List Op) → IsValid rb → IsValid (after rb ops)
unfolding after
after-IsValid rb [] v = v
after-IsValid rb (op ∷ ops) v = after-IsValid (whole_call rb op).1 ops (call-IsValid rb op v)

update_self : (pc : ℕ → Pc) (i : ℕ) (p : Pc) → update pc i p i ≡ p
unfolding update
update_self pc i p = rw ((==_iff i i).1 refl) refl

update_other : (pc : ℕ → Pc) (i j : ℕ) (p : Pc) → j ≢ i → update pc i p j ≡ pc j
unfolding update
update_other pc i j p h = rw ((==_ne j i).1 h) refl

-- A property of the places of all threads, when one of them moves.
update_all :
    (P : ℕ → Pc → Type 0) (pc : ℕ → Pc) (i : ℕ) (p : Pc)
    → P i p
    → ((j : ℕ) → j ≢ i → P j (pc j))
    → (j : ℕ) → P j (update pc i p j)
update_all P pc i p h others j = elim (ℕ_discrete j i) [
  | yes e ↦ subst (λ k. P k (update pc i p k)) (sym e) (rw (update_self pc i p) h)
  | no e ↦ rw (update_other pc i j p e) (others j e)
]

-- The calls that have returned were whole; a thread that has not returned is alone with the ring.
pub record Inv (rb : Ring) (s : System) : Type 0 where
  pub told : s.replied ≡ replies queue rb s.finished
  pub only : (i : ℕ) → inside (s.pc i) ≡ true → s.lock ≡ some i
  pub free : s.lock ≡ none → s.ring ≡ after rb s.finished
  pub held : (i : ℕ) → s.lock ≡ some i → Partial (after rb s.finished) (s.pc i) s.ring

working-inside : (p : Pc) → working p ≡ true → inside p ≡ true
unfolding inside working
working-inside idle h = h
working-inside (waiting op) h = h
working-inside _ h = refl

-- Each kind of step keeps it.
module _ {s : System} (rb : Ring) (inv : Inv rb s) (i : ℕ) where
  call-Inv : (op : Op) → s.pc i ≡ idle → Inv rb (record s { pc = update s.pc i (waiting op) })
  call-Inv op at = record {
    told = inv.told;
    only =
        update_all (λ j p. inside p ≡ true → s.lock ≡ some j) s.pc i (waiting op)
          (unfold inside in λ e. cc) (λ j other. inv.only j);
    free = inv.free;
    held =
        update_all (λ j p. s.lock ≡ some j → Partial (after rb s.finished) p s.ring) s.pc i
          (waiting op) (λ e. subst (λ p. Partial (after rb s.finished) p s.ring) at (inv.held i e))
          (λ j other. inv.held j);
  }

  acquire-Inv :
      (op : Op)
      → s.pc i ≡ waiting op
      → s.lock ≡ none
      → Inv rb (record s { lock = some i; pc = update s.pc i (entered op) })
  acquire-Inv op at open_lock = record {
    told = inv.told;
    only =
        update_all (λ j p. inside p ≡ true → some i ≡ some j) s.pc i (entered op) (λ e. refl)
          (λ j other e. let locked = inv.only j e in cc);
    free = λ e. cc;
    held =
        update_all (λ j p. some i ≡ some j → Partial (after rb s.finished) p s.ring) s.pc i
          (entered op) (λ e. inv.free open_lock) (λ j other e. absurd (other cc));
  }

  work-Inv :
      working (s.pc i) ≡ true
      → Inv rb (record s {
        ring = (access s.ring (s.pc i)).0;
        pc = update s.pc i (access s.ring (s.pc i)).1;
      })
  work-Inv busy =
      let locked = inv.only i (working-inside (s.pc i) busy) in
      record {
        told = inv.told;
        only =
            update_all (λ j p. inside p ≡ true → s.lock ≡ some j) s.pc i (access s.ring (s.pc i)).1
              (λ e. locked) (λ j other. inv.only j);
        free = λ e. cc;
        held =
            update_all
              (λ j p. s.lock ≡ some j → Partial (after rb s.finished) p (access s.ring (s.pc i)).0)
              s.pc i (access s.ring (s.pc i)).1
              (λ e. Partial-access (after rb s.finished) s.ring (s.pc i) busy (inv.held i e))
              (λ j other e. absurd (other cc));
      }

  release-Inv :
      (op : Op) (reply : Reply)
      → s.pc i ≡ leaving op reply
      → Inv rb (record s {
        lock = none;
        pc = update s.pc i idle;
        finished = s.finished ++ op ∷ [];
        replied = s.replied ++ reply ∷ [];
      })
  release-Inv op reply at =
      let locked = inv.only i (rw at (unfold inside in refl)) in
      let whole : (reply, s.ring) ≡ whole_call (after rb s.finished) op =
        subst (λ p. Partial (after rb s.finished) p s.ring) at (inv.held i locked) in
      record {
        told =
            ap₂ (λ rs r. rs ++ r ∷ []) inv.told (ap (λ p. p.0) whole)
            ∙ sym (replies-append rb s.finished op);
        only =
            update_all (λ j p. inside p ≡ true → none ≡ some j) s.pc i idle
              (unfold inside in λ e. cc)
              (λ j other e. let locked_j = inv.only j e in absurd (other cc));
        free = λ e. ap (λ p. p.1) whole ∙ sym (after-append rb s.finished op);
        held = λ j e. cc;
      }

pub Step-Inv : {s t : System} (rb : Ring) → Inv rb s → Step s t → Inv rb t
Step-Inv rb inv (call i op at) = call-Inv rb inv i op at
Step-Inv rb inv (acquire i op at open_lock) = acquire-Inv rb inv i op at open_lock
Step-Inv rb inv (work i busy) = work-Inv rb inv i busy
Step-Inv rb inv (release i op reply at) = release-Inv rb inv i op reply at
