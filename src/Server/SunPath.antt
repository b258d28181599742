-- ===== src/Server/SunPath.antt =====
-- The address of a local socket.
use mnapp.Http.Field.{cstr-append}
use mnapp.Http.Message.{cstr}
use mnapp.Server.Start.{sun_path}
use mnapp.Shared.{
  ℕ, zero, suc, ◌+◌, ◌-◌, ◌<◌, ◌≤◌, ◌≡◌, ◌≢◌, refl, ap, ◌∙◌, true, none, some, [], ◌∷◌, ◌++◌, ltb,
  arith, min, Bytes, All, append_assoc, length, length-append, take, take-length, replicate,
}

length-replicate : (n : ℕ) → length {A = ℕ} (replicate n 0) ≡ n
length-replicate zero = omega arith
length-replicate (suc n) = omega (arith, length-replicate n)

sun_path-fits :
    (size : ℕ) (path : Bytes)
    → length path + 1 < size
    → sun_path size path ≡ some ((path ++ 0 ∷ []) ++ replicate (size - (length path + 1)) 0)
unfolding sun_path
sun_path-fits size path h =
    let sz : min (length path + 1) size ≡ length path + 1 = omega arith in
    let room : ltb (length path + 1) size ≡ true = ground arith in
    let whole : take (length path + 1) (path ++ 0 ∷ []) ≡ path ++ 0 ∷ [] =
      rw (← length-append path (0 ∷ [])) (take-length (path ++ 0 ∷ [])) in
    rw (sz) (rw (room) (rw (whole) refl))

-- A path of no NUL is stored in sun_path, which is then full and is read back as the path, where the path
-- has two bytes less than sun_path or fewer. For a longer one the NUL is written behind sun_path.
pub sun_path-cstr :
    (size : ℕ) (path : Bytes)
    → All (λ c. c ≢ 0) path
    → (length path + 1 < size
        → (m : Bytes) × (sun_path size path ≡ some m) × (cstr m ≡ path) × (length m ≡ size))
      × (size ≤ length path + 1 → sun_path size path ≡ none)
unfolding sun_path
sun_path-cstr size path h = (
  λ fits.
      let zeros = replicate (size - (length path + 1)) 0 in
      (
        (path ++ 0 ∷ []) ++ zeros,
        sun_path-fits size path fits,
        ap cstr (append_assoc path (0 ∷ []) zeros) ∙ cstr-append path zeros h,
        omega (
          arith,
          fits,
          length-append (path ++ 0 ∷ []) zeros,
          length-append path (0 ∷ []),
          length-replicate (size - (length path + 1)),
        ),
      ),
  λ long. ground (arith, long),
)
