-- ===== src/Values/Checked.antt =====
-- A chain of checks that succeeds: each of its checks did.
use async_gateway.Prelude.{◌≡◌, refl}
use async_gateway.Values.{Result, ok, err, ◌>>=◌}

pub bind-ok {κ ℓ} :
    {Checked : Type κ} {Next : Type ℓ} (r : Result Checked) (next : Checked → Result Next)
    (b : Next)
    → (r >>= next) ≡ ok b
    → (a : Checked) × (r ≡ ok a) × (next a ≡ ok b)
bind-ok (err e) next b h = cc
bind-ok (ok a) next b h = (a, refl, h)

pub ok_injective {ℓ} : {Checked : Type ℓ} {a b : Checked} → ok a ≡ ok b → a ≡ b
ok_injective h = cc
