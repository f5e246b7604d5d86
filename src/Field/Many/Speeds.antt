-- ===== src/Field/Many/Speeds.antt =====
-- The speeds that the master sets at several slaves take effect at once, when it applies them.
use ammc.Base.{
  ℕ, ◌+◌, ◌*◌, ◌%◌, ◌<◌, ◌≡◌, refl, ap, ap₂, ◌∙◌, Option, some, List, [], ◌∷◌, length, All, All2,
  All2-map, All2-trans, All2-All, ==_ne, ◌==◌, inl, inr, Bool-cases, if◌then◌else◌, arith,
}
use ammc.Master.Commands.{
  Stack, prepare_command, send_bcast_command, send_command, dcmotor_set, dcmotor_apply,
}
use ammc.Slave.Motor.{compute_limited_speed}
use ammc.Slave.Command.{Slave}
use ammc.Slave.Command.Effects.{IsReady, main_round-apply, main_round-set}
use ammc.Field.{deliver}
use ammc.Field.Many.{slaves_bus, deliver_each, deliver_all}

-- A speed, in its two bytes, for the slave at an address.
pub record Setting : Type 0 where
  pub address : ℕ
  pub low : ℕ
  pub high : ℕ

-- The speed that a slave is to go at next, given the speed before and a setting.
abbrev pub chosen : Setting → ℕ → ℕ → ℕ
chosen x address next =
    if x.address == address then compute_limited_speed (x.low + 256 * x.high) else next

abbrev pub chosen_last : List Setting → ℕ → ℕ → ℕ
chosen_last [] address next = next
chosen_last (x ∷ xs) address next = chosen_last xs address (chosen x address next)

-- The slave that has taken part in a transfer of a setting, or not.
record TakesSetting {F : Type 0} (x : Setting) (s s' : Slave F) : Type 0 where
  ready : IsReady s'
  same : s'.twi.address ≡ s.twi.address
  target : s'.motor.speed_target ≡ s.motor.speed_target
  next : s'.motor.speed_next ≡ chosen x s.twi.address s.motor.speed_next

deliver-set :
    {F : Type 0} (x : Setting) (s : Slave F)
    → 0 < x.address
    → x.address < 128
    → IsReady s
    → (s' : Slave F) × (deliver (some s) x.address (1 ∷ x.low ∷ x.high ∷ []) ≡ some s')
      × TakesSetting x s s'
unfolding deliver
deliver-set x s positive short ready = elim (Bool-cases (x.address == s.twi.address)) [
  | inl own ↦
      let (s', run, ready', same, target, next) = main_round-set s x.low x.high ready in
      (
        s',
        rw (cut, (==_ne x.address 0).1 (omega arith), own) run,
        record { ready = ready'; same = same; target = target; next = rw own next },
      )
  | inr other ↦ (
    s,
    rw (cut, (==_ne x.address 0).1 (omega arith), other) refl,
    record { ready = ready; same = refl; target = refl; next = rw other refl },
  )
]
  where
    cut : x.address % 128 ≡ x.address
    cut = omega arith

set_each :
    {F : Type 0} (x : Setting) (slaves : List (Slave F))
    → 0 < x.address
    → x.address < 128
    → All IsReady slaves
    → (slaves' : List (Slave F)) × (deliver_each slaves x.address (1 ∷ x.low ∷ x.high ∷ [])
        ≡ some slaves')
      × All2 (TakesSetting x) slaves slaves'
unfolding deliver_each
set_each x [] positive short ready = ([], refl, tt)
set_each x (s ∷ slaves) positive short ready =
    let (s', run, one) = deliver-set x s positive short ready.0 in
    let (slaves', rest, others) = set_each x slaves positive short ready.1 in
    (s' ∷ slaves', rw (run, deliver_each, rest) refl, (one, others))

-- The slave behind the transfers of several settings.
record AreSet {F : Type 0} (xs : List Setting) (s s' : Slave F) : Type 0 where
  ready : IsReady s'
  same : s'.twi.address ≡ s.twi.address
  target : s'.motor.speed_target ≡ s.motor.speed_target
  next : s'.motor.speed_next ≡ chosen_last xs s.twi.address s.motor.speed_next

AreSet-none :
    {F : Type 0} (slaves : List (Slave F)) → All IsReady slaves → All2 (AreSet []) slaves slaves
AreSet-none [] ready = tt
AreSet-none (s ∷ slaves) ready = (
  record { ready = ready.0; same = refl; target = refl; next = refl },
  AreSet-none slaves ready.1,
)

AreSet-more :
    {F : Type 0} {x : Setting} {xs : List Setting} {s t u : Slave F}
    → TakesSetting x s t
    → AreSet xs t u
    → AreSet (x ∷ xs) s u
AreSet-more {xs} one more = record {
  ready = more.ready;
  same = more.same ∙ one.same;
  target = more.target ∙ one.target;
  next = more.next ∙ ap₂ (chosen_last xs) one.same one.next;
}

-- The settings, one after the other, by `dcmotor_set`.
unfoldable pub set_all :
    {F : Type 0} → Stack → List Setting → Option (List (Slave F)) → Option (List (Slave F))
set_all stack [] w = w
set_all {F} stack (x ∷ xs) w =
    set_all stack xs (dcmotor_set (slaves_bus F) stack w x.address (x.low ∷ x.high ∷ []))

dcmotor_set-deliver :
    {F : Type 0} (id : ℕ) (argument speed : List ℕ) (w : Option (List (Slave F))) (x : Setting)
    → length argument ≡ 15
    → let stack : Stack = record {
      command = record { id = id; argument = argument };
      speed = speed;
    } in
      dcmotor_set (slaves_bus F) stack w x.address (x.low ∷ x.high ∷ [])
      ≡ deliver_all w x.address (1 ∷ x.low ∷ x.high ∷ [])
unfolding dcmotor_set send_command prepare_command
dcmotor_set-deliver id [] speed w x size = absurd (omega (arith, size))
dcmotor_set-deliver id (a ∷ []) speed w x size = absurd (omega (arith, size))
dcmotor_set-deliver id (a ∷ b ∷ argument) speed w x size = refl

set_all-run :
    {F : Type 0} (stack : Stack) (xs : List Setting) (slaves : List (Slave F))
    → length stack.command.argument ≡ 15
    → All (λ x. (0 < x.address) × (x.address < 128)) xs
    → All IsReady slaves
    → (slaves' : List (Slave F)) × (set_all stack xs (some slaves) ≡ some slaves')
      × All2 (AreSet xs) slaves slaves'
unfolding set_all deliver_all
set_all-run stack [] slaves room positive ready = (slaves, refl, AreSet-none slaves ready)
set_all-run stack (x ∷ xs) slaves room positive ready =
    let (mid, run, one) = set_each x slaves positive.0.0 positive.0.1 ready in
    let (last, rest, more) =
      set_all-run stack xs mid room positive.1 (All2-All (λ s t r. r.ready) slaves mid one) in
    (
      last,
      ap (set_all stack xs) (
            dcmotor_set-deliver stack.command.id stack.command.argument stack.speed (some slaves) x
              room
            ∙ run)
          ∙ rest,
      All2-trans (λ s t u. AreSet-more) slaves mid last one more,
    )

apply_each :
    {F : Type 0} (slaves : List (Slave F))
    → All IsReady slaves
    → (slaves' : List (Slave F)) × (deliver_each slaves 0 (2 ∷ []) ≡ some slaves')
      × All2 (λ s s'. s'.motor.speed_target ≡ s.motor.speed_next) slaves slaves'
unfolding deliver_each deliver
apply_each [] ready = ([], refl, tt)
apply_each (s ∷ slaves) ready =
    let (s', run, one) = main_round-apply s ready.0 in
    let (slaves', rest, others) = apply_each slaves ready.1 in
    (s' ∷ slaves', rw (run, deliver_each, rest) refl, (one, others))

-- On a bus with any number of slaves, whose addresses are not 0, whose commands have 16 bytes, as
-- the one on the master's stack, and whose modules are ready, since the master has read all their
-- answers: any settings, with addresses from 1 to 127, sent one after the other by `dcmotor_set`, change the target of no slave. `dcmotor_apply` then makes every slave's
-- target, at once, the limited speed of the last setting for its address, or its next speed from
-- before if there was none.
pub speeds_together :
    {F : Type 0} (stack : Stack) (settings : List Setting) (slaves : List (Slave F))
    → length stack.command.argument ≡ 15
    → All (λ x. (0 < x.address) × (x.address < 128)) settings
    → All IsReady slaves
    → (mid last : List (Slave F)) × (set_all stack settings (some slaves) ≡ some mid)
      × All2 (λ s s'. s'.motor.speed_target ≡ s.motor.speed_target) slaves mid
      × (dcmotor_apply (slaves_bus F) stack (some mid) ≡ some last)
      × All2
          (λ s s'. s'.motor.speed_target ≡ chosen_last settings s.twi.address s.motor.speed_next)
          slaves
          last
unfolding dcmotor_apply send_bcast_command prepare_command deliver_all
speeds_together stack settings slaves room positive ready =
    let (mid, run, sets) = set_all-run stack settings slaves room positive ready in
    let (last, applied, targets) = apply_each mid (All2-All (λ s t r. r.ready) slaves mid sets) in
    (
      mid,
      last,
      run,
      All2-map (λ s t r. r.target) slaves mid sets,
      applied,
      All2-trans (λ s t u r e. e ∙ r.next) slaves mid last sets targets,
    )
