-- ===== src/App/Account/Waits.antt =====
-- How long a client waits until both windows hold a cost.
use algod_loadb_mesh.Base.{
  ◌≡◌, refl, sym, subst, inl, inr, true, false, Option, none, some, arith, Bool-cases, Duration,
  second, pos, ◌≤ℤ◌, ltb_ℤ,
}
use algod_loadb_mesh.App.Account.{
  WindowName, minute_window, day_window, longer_wait, at_least_second,
}

-- What a wait of the windows `g` says of them.
abbrev pub IsWaitOf : (WindowName → Duration) → Option (Duration × WindowName) → Type 0
IsWaitOf g none = (w : WindowName) → ltb_ℤ (pos 0) (g w) ≡ false
IsWaitOf g (some (d, w)) = (ltb_ℤ (pos 0) (g w) ≡ true) × (pos second ≤ℤ d) × (g w ≤ℤ d)

second-IsWaitOf :
    (g : WindowName → Duration) (w : WindowName)
    → ltb_ℤ (pos 0) (g w) ≡ true
    → IsWaitOf g (at_least_second (some (g w, w)))
second-IsWaitOf g w p = elim (Bool-cases (ltb_ℤ (g w) (pos second))) [
  | inl k ↦ rw k (p, omega arith, ground arith)
  | inr k ↦ rw k (p, ground arith, omega arith)
]

pub longer-IsWaitOf :
    (g : WindowName → Duration)
    → IsWaitOf g (at_least_second (longer_wait (g minute_window) (g day_window)))
longer-IsWaitOf g = elim (Bool-cases (ltb_ℤ (pos 0) (g minute_window))) [
  | inl a ↦ elim (Bool-cases (ltb_ℤ (g minute_window) (g day_window))) [
    | inl b ↦
        longest (some (g day_window, day_window)) (rw (a, b) refl)
          (second-IsWaitOf g day_window (ground arith))
    | inr b ↦
        longest (some (g minute_window, minute_window)) (rw (a, b) refl)
          (second-IsWaitOf g minute_window a)
  ]
  | inr a ↦ elim (Bool-cases (ltb_ℤ (pos 0) (g day_window))) [
    | inl b ↦
        longest (some (g day_window, day_window)) (rw (a, b) refl) (second-IsWaitOf g day_window b)
    | inr b ↦
        longest none (rw (a, b) refl)
          (λ w. elim w as (λ k. ltb_ℤ (pos 0) (g k) ≡ false) [ minute_window ↦ a | day_window ↦ b ])
  ]
]
  where
    longest :
        (x : Option (Duration × WindowName))
        → longer_wait (g minute_window) (g day_window) ≡ x
        → IsWaitOf g (at_least_second x)
        → IsWaitOf g (at_least_second (longer_wait (g minute_window) (g day_window)))
    longest x e h = subst (λ y. IsWaitOf g (at_least_second y)) (sym e) h
