-- ===== src/Field/Tests.antt =====
-- A transfer to another address does not reach the slave.
use ammc.Base.{◌≡◌, refl, some, [], ◌∷◌}
use ammc.Slave.Samples.{first_slave}
use ammc.Field.{deliver}
use ammc.Field.Wire.{heard}

heard_elsewhere : heard (some first_slave) (4 ∷ 1 ∷ []) ≡ some first_slave
unfolding heard deliver
heard_elsewhere = refl
