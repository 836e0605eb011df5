-- ===== src/Print.antt =====
-- Numbers as text: `printint` of console.c, and the string functions of ulib.c.
pub mod Decimal
mod Examples
use os_fcfs_prirority.Base.{
  ℕ, zero, suc, ◌+◌, ◌-◌, ◌*◌, ◌/◌, ◌%◌, ◌^◌, Bool, not, ◌&&◌, Option, none, some, List, [], ◌∷◌,
  update, u32, sub32, ltb, leb, ◌==◌, if◌then◌else◌,
}

-- `digits[d]`.
abbrev pub digit : ℕ → ℕ
digit d = if ltb d 10 then b'0' + d else b'a' + (d - 10)

-- The loop over the digits of `x`, from index `i` of `buf` on. A number of 32 bits has 32 digits at
-- most.
unfoldable pub put_digits : ℕ → ℕ → ℕ → ℕ → (ℕ → ℕ) → ℕ × (ℕ → ℕ)
put_digits zero base x i buf = (i, buf)
put_digits (suc fuel) base x i buf =
    let buf' = update buf i (digit (x % base)) in
    let rest = put_digits fuel base (x / base) (suc i) buf' in
    if x / base == 0 then (suc i, buf') else rest

-- `while(--i >= 0) consputc(buf[i]);`
unfoldable pub put_back : ℕ → (ℕ → ℕ) → List ℕ
put_back zero buf = []
put_back (suc i) buf = buf i ∷ put_back i buf

-- Whether the number is negative and to be printed so.
abbrev pub is_negative : Bool → ℕ → Bool
is_negative sign xx = sign && leb (2 ^ 31) xx

-- What `printint` has in `buf` before it prints: the index and the bytes, which are not set at first.
unfoldable pub fill_buf : ℕ → ℕ → Bool → (ℕ → ℕ) → ℕ × (ℕ → ℕ)
fill_buf xx base sign buf =
    let r = put_digits 32 base (if is_negative sign xx then sub32 0 xx else xx) 0 buf in
    if is_negative sign xx then (suc r.0, update r.1 r.0 b'-') else r

-- `printint` of an `int`.
unfoldable pub printint : ℕ → ℕ → Bool → (ℕ → ℕ) → List ℕ
printint xx base sign buf = let r = fill_buf xx base sign buf in put_back r.0 r.1

-- The loop of `atoi` from offset `i` on, with fuel.
unfoldable pub atoi_from : ℕ → (ℕ → ℕ) → ℕ → ℕ → ℕ
atoi_from zero s i n = n
atoi_from (suc fuel) s i n =
    let rest = atoi_from fuel s (suc i) (u32 (n * 10 + s i - b'0')) in
    if leb b'0' (s i) && leb (s i) b'9' then rest else n

-- `atoi` of a text of at most `fuel` digits.
unfoldable pub atoi : ℕ → (ℕ → ℕ) → ℕ
atoi fuel s = atoi_from fuel s 0 0
