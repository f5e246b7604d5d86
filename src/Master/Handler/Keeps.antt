-- ===== src/Master/Handler/Keeps.antt =====
-- What the operations of the handler leave alone.
use ammc.Base.{
  ℕ, ◌≡◌, inl, inr, refl, sym, append-nil, ◌++◌, ◌||◌, Option, none, some, List, [], take, get_or,
  All, All-get_or, ltb, ◌==◌, Bool-cases, arith,
}
use ammc.Bus.{Bus}
use ammc.Port
use ammc.Port.{Port}
use ammc.Master.Comm.{send}
use ammc.Master.Operations.{
  Locals, Comm, reply, operation_table, op_echo, op_ping, op_get_speed, op_set_speed, op_apply,
  op_set_slave_addr,
}
use ammc.Master.Handler.{receiving, Handler, run_operation}

write-input : (p : Port) (bs : List ℕ) (n : ℕ) → (Port.write p bs n).1.input ≡ p.input
unfolding Port.write
write-input p bs n = ground arith

write-output :
    (p : Port) (bs : List ℕ) (n : ℕ)
    → (sent : List ℕ) × ((Port.write p bs n).1.output ≡ p.output ++ sent)
unfolding Port.write
write-output p bs n = elim (Bool-cases (n == 0 || ltb 32 n)) [
  | inl e ↦ ([], rw e (sym (append-nil p.output)))
  | inr e ↦ (take n bs, rw e refl)
]

module _ (bus : Bus) (locals : Locals) where
  open bus use {World}

  pub reply-keeps :
      (m : Comm World) (type selector n : ℕ) (body : Option (List ℕ))
      → ((reply bus locals m type selector n body).port.input ≡ m.port.input)
        × ((reply bus locals m type selector n body).global_id ≡ m.global_id)
        × ((sent : List ℕ) × ((reply bus locals m type selector n body).port.output
              ≡ m.port.output ++ sent))
  unfolding reply send
  reply-keeps m type selector n body = (write-input _ _ _, refl, write-output _ _ _)

  -- An operation leaves the received bytes and the id alone, leads back to receiving, and sends
  -- behind what was sent before.
  abbrev pub Keeps : Handler World → Handler World → Type 0
  Keeps h h' =
      (h'.state ≡ receiving)
      × (h'.comm.port.input ≡ h.comm.port.input)
      × (h'.comm.global_id ≡ h.comm.global_id)
      × ((sent : List ℕ) × (h'.comm.port.output ≡ h.comm.port.output ++ sent))

  ping-Keeps :
      (h : Handler World) → Keeps h (run_operation bus locals h (some (op_ping bus locals)))
  unfolding run_operation op_ping
  ping-Keeps h = elim (Bool-cases (h.rx.selector == 0 || ltb 127 h.rx.selector)) [
    | inl e ↦
        rw e (refl, (reply-keeps _ _ _ _ _).0, (reply-keeps _ _ _ _ _).1, (reply-keeps _ _ _ _ _).2)
    | inr e ↦
        rw e (refl, (reply-keeps _ _ _ _ _).0, (reply-keeps _ _ _ _ _).1, (reply-keeps _ _ _ _ _).2)
  ]

  entry-Keeps :
      All
        (λ o. (h : Handler World) → Keeps h (run_operation bus locals h o))
        (operation_table bus locals)
  unfolding operation_table run_operation op_echo op_ping op_get_speed op_set_speed op_apply
      op_set_slave_addr
  entry-Keeps = (
    (λ h. (refl, refl, refl, ([], sym (append-nil _)))),
    (
      (λ h. (refl, refl, refl, ([], sym (append-nil _)))),
      (
        (λ h. (refl, refl, refl, ([], sym (append-nil _)))),
        (
          (λ h. (refl, refl, refl, ([], sym (append-nil _)))),
          (
            (λ h. (
              refl,
              (reply-keeps _ _ _ _ _).0,
              (reply-keeps _ _ _ _ _).1,
              (reply-keeps _ _ _ _ _).2,
            )),
            (
              ping-Keeps,
              (
                (λ h. (
                  refl,
                  (reply-keeps _ _ _ _ _).0,
                  (reply-keeps _ _ _ _ _).1,
                  (reply-keeps _ _ _ _ _).2,
                )),
                (
                  (λ h. (refl, refl, refl, ([], sym (append-nil _)))),
                  (
                    (λ h. (refl, refl, refl, ([], sym (append-nil _)))),
                    (
                      (λ h. (refl, refl, refl, ([], sym (append-nil _)))),
                      ((λ h. (refl, refl, refl, ([], sym (append-nil _)))), tt),
                    ),
                  ),
                ),
              ),
            ),
          ),
        ),
      ),
    ),
  )

  pub operation-Keeps :
      (t : ℕ) (h : Handler World)
      → Keeps h (run_operation bus locals h (get_or (operation_table bus locals) t none))
  operation-Keeps t h =
      All-get_or (λ o. (h : Handler World) → Keeps h (run_operation bus locals h o))
        (operation_table bus locals) t none entry-Keeps
        (λ h. unfold run_operation in (refl, refl, refl, ([], sym (append-nil _)))) h
