-- ===== src/Stream.antt =====
-- What the program relies on in a reader: `std::io::Read` and `Seek`, as implemented by files, by
-- the elevated reader of tui/src/sudo.rs and by the partition window of tui/src/verify.rs.
use nixnas.Base.{
  ℕ, ◌+◌, ◌-◌, ◌%◌, ◌^◌, ◌≤◌, ◌<◌, ◌≡◌, Option, none, some, List, [], ◌++◌, ltb, if◌then◌else◌,
  length, drop, ok, Io,
}
use nixnas.Base.Text.{Text}

abbrev pub Bytes : Type 0
Bytes = List ℕ

pub data IoError : Type 0 where
  not_found permission_denied already_exists invalid_input unsupported unexpected_eof : IoError
  other : Text → IoError

-- `i64`; `negsuc n` is -(n + 1).
pub data ℤ : Type 0 where
  pos : ℕ → ℤ
  negsuc : ℕ → ℤ

pub data SeekFrom : Type 0 where
  from_start : ℕ → SeekFrom
  from_end : ℤ → SeekFrom
  from_current : ℤ → SeekFrom

-- The sum in `i128`, which cannot overflow; `none` where it is negative.
abbrev pub add_offset : ℕ → ℤ → Option ℕ
add_offset n (pos k) = some (n + k)
add_offset n (negsuc k) = if ltb k n then some (n - (k + 1)) else none

-- The position that both `seek` functions compute, from the length and the present position.
abbrev pub seek_target : ℕ → ℕ → SeekFrom → Option ℕ
seek_target len here (from_start o) = some o
seek_target len here (from_end o) = add_offset len o
seek_target len here (from_current o) = add_offset here o

-- `target as u64`
abbrev pub as_u64 : ℕ → ℕ
as_u64 n = n % 2 ^ 64

-- One call of `read` with a buffer of the given size: what it put into the buffer.
abbrev pub Read : Type 0 → Type 0
Read S = ℕ → Io S IoError (List ℕ)

-- A reader whose bytes still to come are `rest`: a read gives a piece of them from the front, at most
-- as long as the buffer, and an empty one only at the end.
pub record IsStream {S : Type 0} (read : Read S) (Good : S → Type 0) (rest : S → List ℕ)
    : Type 0 where
  pub keeps : (n : ℕ) (s : S) → Good s → Good (read n s).1
  pub reads :
      (n : ℕ) (s : S) (bs : List ℕ)
      → Good s
      → (read n s).0 ≡ ok bs
      → bs ++ rest (read n s).1 ≡ rest s
  pub bounded : (n : ℕ) (s : S) (bs : List ℕ) → Good s → (read n s).0 ≡ ok bs → length bs ≤ n
  pub ends : (n : ℕ) (s : S) → Good s → (read n s).0 ≡ ok [] → 0 < n → rest s ≡ []

-- A reader over fixed contents that can be moved to a byte offset.
pub record IsSeekable {S : Type 0} (seek : SeekFrom → Io S IoError ℕ) (Good : S → Type 0)
    (rest : S → List ℕ) (content : List ℕ) : Type 0 where
  pub keeps : (p : SeekFrom) (s : S) → Good s → Good (seek p s).1
  pub moves :
      (p : ℕ) (s : S) {q : ℕ}
      → p < 2 ^ 64
      → Good s
      → (seek (from_start p) s).0 ≡ ok q
      → rest (seek (from_start p) s).1 ≡ drop p content

-- Every read succeeds, where the host answers.
abbrev pub Succeeds : {S : Type 0} → Read S → (S → Type 0) → Type 0
Succeeds {S} read Good = (n : ℕ) (s : S) → Good s → (bs : List ℕ) × ((read n s).0 ≡ ok bs)
