-- ===== src/Writer/Output.antt =====
-- What the printing functions call of mncommon, and what they return.
use mnapp.Shared.{ℕ, ◌<◌, ◌≡◌, Bool, true, ◌++◌, if◌then◌else◌, Bytes, length}

-- Whether the call returned 0 or more, and the stream afterwards.
pub record Put (W : Type 0) : Type 0 where
  pub written : Bool
  pub out : W

-- `W` stands for `mnbytestream_t`.
pub record Output (W : Type 0) : Type 0 where
  -- `bytestream_nprintf(out, sz, ...)`, with the text that its format makes of its arguments
  pub nprintf : W → ℕ → Bytes → Put W
  -- `bytestream_cat(out, sz, str)`, with the `sz` bytes at `str`
  pub cat : W → Bytes → Put W
  -- the data of the stream, up to its end
  pub contents : W → Bytes
  -- As `snprintf`, it prints the whole text where the size leaves room for a NUL behind it.
  pub nprintf-contents :
      (w : W) (sz : ℕ) (t : Bytes)
      → length t < sz
      → (nprintf w sz t).written ≡ true
      → contents (nprintf w sz t).out ≡ contents w ++ t
  pub cat-contents :
      (w : W) (t : Bytes) → (cat w t).written ≡ true → contents (cat w t).out ≡ contents w ++ t

-- 0, or a code of the generated diag.h with the number that is added to it.
pub data Wrote : Type 0 where
  success : Wrote
  start_request start_response add_header_field end_of_header add_body : ℕ → Wrote

pub record Sent (W : Type 0) : Type 0 where
  pub ret : Wrote
  pub out : W

-- The end of a function that returns `code` where the call failed.
abbrev pub or_code : {W : Type 0} → Put W → Wrote → Sent W
or_code p code = record { ret = (if p.written then success else code); out = p.out }

-- What follows a call that did not fail.
infixl 5 ◌>>=◌
abbrev pub after_success : {W : Type 0} → Wrote → W → (W → Sent W) → Sent W
after_success success w next = next w
after_success code w next = record { ret = code; out = w }

abbrev pub ◌>>=◌ : {W : Type 0} → Sent W → (W → Sent W) → Sent W
s >>= next = after_success s.ret s.out next
