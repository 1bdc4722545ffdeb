-- ===== src/Net/Tcp/Attempts.antt =====
-- src/net/tcp/stream.rs and src/net/tcp/listener.rs: the loops of `connect` and `bind` over the
-- resolved addresses. Each address stands with the result of its attempt.
use wae.Common.{
  ℕ, suc, ◌+◌, ◌<◌, ◌≡◌, refl, Bool, true, false, not, ◌&&◌, ◌||◌, List, [], ◌∷◌, ltb, ◌==◌,
  if◌then◌else◌, ok, err, IoResult, os, not_found, as_i32, is_ok, length, arith, pos, ◌∙◌,
}

-- The loop of `connect`: how many were tried, and the last result.
unfoldable pub connect_loop :
    List (IoResult (Unit {0})) → ℕ → IoResult (Unit {0}) → ℕ × IoResult (Unit {0})
connect_loop [] tried result = (tried, result)
connect_loop (r ∷ rest) tried result =
    let more = connect_loop rest (tried + 1) r in if is_ok r then (tried + 1, r) else more

-- The match at the end of `connect`, up to the making of the handle.
unfoldable pub connect_result : ℕ × IoResult (Unit {0}) → IoResult (Unit {0})
connect_result (tried, ok _) = ok tt
connect_result (tried, err e) = if ltb 0 tried then err e else err not_found

-- The loop of `bind`: whether it bound, and how many were tried. An attempt is whether `bind` returned 0.
unfoldable pub bind_loop : List Bool → ℕ → Bool × ℕ
bind_loop [] tried = (false, tried)
bind_loop (bound ∷ rest) tried =
    let more = bind_loop rest (tried + 1) in if bound then (true, tried + 1) else more

-- The test after the loop of `bind`; `last_error` is that of the last attempt.
unfoldable pub bind_result : ℕ → Bool × ℕ → IoResult (Unit {0})
bind_result last_error (bound, tried) =
    if not bound && ltb 0 tried
    then err (os (as_i32 last_error))
    else if not bound
    then err not_found
    else ok tt

-- The first success, or else the last error, or else "not found".
abbrev pub best : List (IoResult (Unit {0})) → IoResult (Unit {0})
best [] = err not_found
best (ok _ ∷ rest) = ok tt
best (err e ∷ []) = err e
best (err e ∷ r ∷ rest) = best (r ∷ rest)

-- The attempts up to the first success.
abbrev pub until_ok : List (IoResult (Unit {0})) → ℕ
until_ok [] = 0
until_ok (ok _ ∷ rest) = 1
until_ok (err e ∷ rest) = suc (until_ok rest)

connect_loop_lem :
    (rs : List (IoResult (Unit {0}))) (tried : ℕ) (r before : IoResult (Unit {0}))
    → connect_loop (r ∷ rs) tried before ≡ (tried + until_ok (r ∷ rs), best (r ∷ rs))
unfolding connect_loop
connect_loop_lem rs tried (ok _) before = ground arith
connect_loop_lem [] tried (err e) before = ground arith
connect_loop_lem (r' ∷ rs) tried (err e) before =
    connect_loop_lem rs (tried + 1) r' (err e) ∙ ground arith

connect_result_tried : (n : ℕ) (r : IoResult (Unit {0})) → 0 < n → connect_result (n, r) ≡ r
unfolding connect_result
connect_result_tried n (ok _) h = refl
connect_result_tried n (err e) h = ground arith

until_ok_pos : (r : IoResult (Unit {0})) (rs : List (IoResult (Unit {0}))) → 0 < until_ok (r ∷ rs)
until_ok_pos (ok _) rs = omega arith
until_ok_pos (err e) rs = omega arith

-- `connect` stops at the first address that accepts, and succeeds exactly if there is one; otherwise
-- it has tried all, and its error is that of the last one, or "not found" if there was none.
pub connect_best :
    (rs : List (IoResult (Unit {0})))
    → ((connect_loop rs 0 (err (os (pos 0)))).0 ≡ until_ok rs)
      × (connect_result (connect_loop rs 0 (err (os (pos 0)))) ≡ best rs)
unfolding connect_result connect_loop
connect_best [] = (refl, refl)
connect_best (r ∷ rs) = rw (connect_loop_lem rs 0 r (err (os (pos 0)))) (
  omega arith,
  connect_result_tried (0 + until_ok (r ∷ rs)) (best (r ∷ rs)) (omega (arith, until_ok_pos r rs)),
)

abbrev pub binds : List Bool → Bool
binds [] = false
binds (b ∷ bs) = b || binds bs

abbrev pub until_bound : List Bool → ℕ
until_bound [] = 0
until_bound (true ∷ bs) = 1
until_bound (false ∷ bs) = suc (until_bound bs)

bind_loop_lem :
    (bs : List Bool) (tried : ℕ) → bind_loop bs tried ≡ (binds bs, tried + until_bound bs)
unfolding bind_loop
bind_loop_lem [] tried = ground arith
bind_loop_lem (true ∷ bs) tried = ground arith
bind_loop_lem (false ∷ bs) tried = bind_loop_lem bs (tried + 1) ∙ ground arith

-- `bind` stops at the first address that can be bound, and succeeds exactly if there is one; otherwise
-- its error is the system's last one, or "not found" if there was no address.
pub bind_first :
    (bs : List Bool) (last_error : ℕ)
    → ((bind_loop bs 0).1 ≡ until_bound bs)
      × (bind_result last_error (bind_loop bs 0) ≡ (
          if binds bs
          then ok tt
          else if length bs == 0
          then err not_found
          else err (os (as_i32 last_error))))
unfolding bind_result
bind_first [] last_error = ground (arith, bind_loop_lem [] 0)
bind_first (b ∷ bs) last_error = ground (arith, bind_loop_lem (b ∷ bs) 0)
