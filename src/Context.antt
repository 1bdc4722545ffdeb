-- ===== src/Context.antt =====
-- src/context.rs: the thread-local handle, and the guards that put the previous one back.
use wae.Common.{◌≡◌, refl, Option, some, List, [], ◌∷◌, ◌++◌, arith}

-- `ContextGuard`
pub record Guard (H : Type 0) : Type 0 where
  pub previous : Option H

module _ {H : Type 0} where
  -- `Handle::try_current`, on the thread's `HANDLE`.
  unfoldable pub try_current : Option H → Option H
  try_current context = context

  -- `Handle::current`: `none` is the panic "no wae context".
  unfoldable pub current : Option H → Option H
  unfolding try_current
  current context = try_current context

  -- `Handle::enter`: the thread's handle afterwards, and the guard.
  unfoldable pub enter : H → Option H → Option H × Guard H
  enter handle context = (some handle, record { previous = context })

  -- `Drop` of the guard: the thread's handle afterwards.
  unfoldable pub leave : Guard H → Option H → Option H
  leave guard context = guard.previous

-- Code that enters handles and drops each guard at the end of a block, as the guards' scopes do:
-- `enters h body rest` enters `h`, runs `body`, drops the guard and runs `rest`.
pub data Scopes (H : Type 0) : Type 0 where
  done : Scopes H
  looks : Scopes H → Scopes H
  enters : H → Scopes H → Scopes H → Scopes H

module _ {H : Type 0} where
  -- What `try_current` gives wherever the code looks, and the handle at the end.
  unfoldable pub run : Scopes H → Option H → List (Option H) × Option H
  unfolding enter leave try_current
  run done context = ([], context)
  run (looks rest) context =
      let (seen, last) = run rest context in (try_current context ∷ seen, last)
  run (enters h body rest) context =
      let (inside, guard) = enter h context in
      let (seen, left) = run body inside in
      let (seen', last) = run rest (leave guard left) in (seen ++ seen', last)

  -- What the code should see: the handle of the innermost block.
  abbrev pub sees : Scopes H → Option H → List (Option H)
  sees done context = []
  sees (looks rest) context = context ∷ sees rest context
  sees (enters h body rest) context = sees body (some h) ++ sees rest context

  -- Guards that are dropped in the reverse order restore the handle from before, and code always sees
  -- the handle that was entered last and not left.
  pub run-sees :
      (code : Scopes H) (context : Option H) → run code context ≡ (sees code context, context)
  unfolding run
  run-sees done context = refl
  run-sees (looks rest) context = ground (arith, run-sees rest context)
  run-sees (enters h body rest) context =
      ground (arith, run-sees body (some h), run-sees rest context)

  -- Two guards that are dropped in the order in which they were made leave the first handle current,
  -- though both have been dropped, and whatever was current before.
  pub leave_out_of_order :
      (first second : H) (context : Option H)
      → (let (inside, guard) = enter first context in
          let (within, guard') = enter second inside in
          try_current (leave guard' (leave guard within)))
        ≡ some first
  unfolding enter leave try_current
  leave_out_of_order first second context = refl
