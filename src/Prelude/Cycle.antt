-- ===== src/Prelude/Cycle.antt =====
-- Going round a list from any position of it.
use rocketmq_client_cpp.Prelude.{ℕ, ◌+◌, ◌-◌, ◌%◌, ◌/◌, ◌<◌, ◌≡◌, arith, ◌∙◌, ap}
use native.Mathlib.Nat

-- Some step of a round comes to each position.
pub position : (n index j : ℕ) → j < n → (i : ℕ) × ((i < n) × ((index + i) % n ≡ j))
position n index j h =
    let r = index % n in
    let i = (j + n - r) % n in
    (
      i,
      (
        omega arith,
        Nat.add-mod-mod index (j + n - r) n
            ∙ (ap (λ k. k % n) (omega (arith, Nat.div-add-mod index n))
                ∙ (Nat.mul-add-mod_self_left n (index / n) (j + n)
                    ∙ (Nat.add-mod_right j n ∙ Nat.mod-eq_of_lt h))),
      ),
    )
