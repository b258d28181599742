-- ===== src/Http/Line.antt =====
-- src/mnhttp.c: `parse_method`, `parse_request_line` and `parse_status_line`.
use mnapp.Http.Ctx.{
  ps_header_field_in, Ctx, Res, done, need_more, http_parse_message_error, Stream, Bytestream,
}
use mnapp.Http.Body.{available}
use mnapp.Http.Scan.{findcrlf, findsp, findnosp}
use mnapp.Http.Strtol.{Errno, sets_errno, strtol}
use mnapp.Shared.Int.{ℤ, pos, negsuc, ◌+ℤ◌, sub_ℕ, ltb_ℤ, int32}
use mnapp.Shared.{
  ℕ, zero, suc, ◌+◌, ◌-◌, Bool, true, false, not, ◌||◌, ◌&&◌, none, some, [], ◌∷◌, leb, ◌==◌,
  if◌then◌else◌, Bytes, codes, take, drop, get_or,
}

abbrev pub lower : ℕ → ℕ
lower c = if leb b'A' c && leb c b'Z' then c + 32 else c

-- `strncasecmp(s, t, n) == 0`; a text that ends goes on with a NUL.
unfoldable pub strncasecmp_eq : Bytes → Bytes → ℕ → Bool
strncasecmp_eq s t zero = true
strncasecmp_eq [] [] (suc n) = true
strncasecmp_eq [] (d ∷ t) (suc n) = d == 0
strncasecmp_eq (c ∷ s) [] (suc n) = c == 0
strncasecmp_eq (c ∷ s) (d ∷ t) (suc n) =
    if lower c == lower d then c == 0 || strncasecmp_eq s t n else false

-- The `MNHTTP_M` numbers; -1 is the error.
unfoldable pub parse_method : Bytes → ℕ → ℤ
parse_method s sz =
    if strncasecmp_eq s (codes "GET") sz
    then pos 2
    else if strncasecmp_eq s (codes "HEAD") sz
    then pos 3
    else if strncasecmp_eq s (codes "POST") sz
    then pos 4
    else if strncasecmp_eq s (codes "PUT") sz
    then pos 5
    else if strncasecmp_eq s (codes "DELETE") sz
    then pos 6
    else if strncasecmp_eq s (codes "OPTIONS") sz
    then pos 1
    else if strncasecmp_eq s (codes "CONNECT") sz
    then pos 8
    else if strncasecmp_eq s (codes "TRACE") sz
    then pos 7
    else if sz == 0
    then negsuc 0
    else pos 10

pub record LineStep : Type 0 where
  pub res : Res
  pub ctx : Ctx
  pub in_ : Stream

abbrev fails : ℕ → Ctx → Stream → LineStep
fails n c s = record { res = http_parse_message_error n; ctx = c; in_ = s }

abbrev is_zero : ℤ → Bool
is_zero (pos n) = n == 0
is_zero (negsuc n) = false

-- `HTTP/major.minor` at an offset. What follows gets the context, the offset behind the number, and
-- whether `errno` is `EINVAL` or `ERANGE` then.
unfoldable pub parse_version : Errno → Ctx → Stream → ℕ → (Ctx → ℕ → Bool → LineStep) → LineStep
parse_version errno c s at next =
    let major = strtol 10 (drop (at + 5) s.buffer) in
    let major_end = at + 5 + major.end in
    let c1 = record c { version_major = int32 major.value } in
    let errno1 = errno.before || sets_errno errno major in
    let minor = strtol 10 (drop (major_end + 1) s.buffer) in
    let c2 = record c1 { version_minor = int32 minor.value } in
    let errno2 = errno1 || sets_errno errno minor in
    if not (strncasecmp_eq (drop at s.buffer) (codes "HTTP/") 5)
    then fails 2 c s
    else if is_zero c1.version_major && errno1
    then fails 3 c1 s
    else if not (get_or s.buffer major_end 0 == b'.')
    then fails 4 c1 s
    else if is_zero c2.version_minor && errno2
    then fails 5 c2 s
    else next c2 (major_end + 1 + minor.end) errno2

module _ (lib : Bytestream) where
  open lib use {advance}

  -- The header fields come next, behind the line that ends at `end`.
  abbrev pub line_done : Ctx → Stream → ℕ → LineStep
  line_done c s end = record {
    res = done;
    ctx = record c { parser_state = ps_header_field_in };
    in_ = advance s (sub_ℕ end s.at +ℤ pos 2);
  }

  -- The first line, up to its CR LF, given to a parser of its bytes.
  unfoldable pub with_line : Ctx → Stream → (Ctx → ℕ → ℕ → LineStep) → LineStep
  unfolding available
  with_line c s parse = elim (findcrlf (available s c.first_line.start)) [
    | none ↦ record { res = need_more; ctx = c; in_ = advance s (sub_ℕ s.eod s.at) }
    | some n ↦
        let start = c.first_line.start in
        parse (record c { first_line = record { start = start; end = start + n } }) start n
  ]

  -- Offsets `a`, `b`, `d` and `e` from the start of the line are where the method ends, where the
  -- URI starts and ends, and where the version starts. The line has `n` bytes.
  unfoldable pub parse_request_line : Errno → Ctx → Stream → LineStep
  unfolding with_line parse_version
  parse_request_line errno c s = with_line c s λ c start n.
      let line = λ (k : ℕ). take (n - k) (drop (start + k) s.buffer) in
      elim (findsp (line 0)) [
        | none ↦ fails 1 c s
        | some a ↦
            let method = parse_method (drop start s.buffer) a in
            let c = record c { code = method } in
            if ltb_ℤ method (pos 0) then fails 1 c s else elim (findnosp (line a)) [
              | none ↦ fails 1 c s
              | some i ↦ elim (findsp (line (a + i))) [
                | none ↦ fails 1 c s
                | some j ↦
                    let uri = take j (drop (start + (a + i)) s.buffer) in
                    let c = record c { request_uri = some uri } in
                    elim (findnosp (line (a + i + j))) [
                      | none ↦ fails 1 c s
                      | some k ↦
                          parse_version errno c s (start + (a + i + j + k))
                            λ c at e. line_done c s (start + n)
                    ]
              ]
            ]
      ]

  unfoldable pub parse_status_line : Errno → Ctx → Stream → LineStep
  unfolding with_line parse_version
  parse_status_line errno c s = with_line c s λ c start n.
      elim (findnosp (take n (drop start s.buffer))) [
        | none ↦ fails 1 c s
        | some a ↦ parse_version errno c s (start + a) λ c at is_set.
            elim (findnosp (take (start + n - at) (drop at s.buffer))) [
              | none ↦ fails 6 c s
              | some i ↦
                  let status = strtol 10 (drop (at + i) s.buffer) in
                  let c = record c { code = int32 status.value } in
                  if is_zero c.code && (is_set || sets_errno errno status)
                  then fails 7 c s
                  else line_done c s (start + n)
            ]
      ]
