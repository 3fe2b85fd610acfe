-- ===== src/Tests/Elevated.antt =====
-- The elevated reader over a host that runs `dd` (tui/src/sudo.rs).
use nixnas.Base.{
  ℕ, ◌≡◌, refl, ◌+◌, ◌<◌, ◌^◌, suc, ◌++◌, List, [], ◌∷◌, take, drop, Option, none, some, true,
  Result, ok, err, ap₂, sym, ◌∙◌, arith, Option-cases, inl, inr,
}
use nixnas.Base.Text.{
  Text, codes, decimal, strip_prefix, strip_prefix-append, unsigned, parse_below,
}
use nixnas.Base.Decimal.{parse_below-decimal}
use nixnas.Stream.{Bytes, IoError, unsupported, invalid_input, from_end, negsuc, IsStream}
use nixnas.Sudo.Command.{Command, Output}
use nixnas.Sudo.Reader.{State, dd_command, read, seek}
use nixnas.Sudo.Reader.Laws.{DdReads, Good, rest}
use nixnas.Sudo.Reader.Seek.{seek-Lands}
use nixnas.Sudo.Reader.Stream.{read-IsStream}

abbrev sda : Text
sda = codes "/dev/sda"

abbrev device : Bytes
device = 1 ∷ 2 ∷ 3 ∷ []

abbrev operand : Text → Text → Option ℕ
operand name t = elim (strip_prefix name t) [ none ↦ none | some d ↦ unsigned d ]

abbrev answer : Option ℕ → Option ℕ → Result IoError Output
answer (some off) (some n) =
    ok (record { success = true; stdout = take n (drop off device); stderr = [] })
answer (some off) none = err unsupported
answer none _ = err unsupported

abbrev host_args : List Text → Result IoError Output
host_args (_ ∷ _ ∷ _ ∷ _ ∷ _ ∷ _ ∷ _ ∷ skip ∷ count ∷ _) =
    answer (operand (codes "skip=") skip) (operand (codes "count=") count)
host_args _ = err unsupported

abbrev host : List Command → Command → Result IoError Output
host ran c = host_args c.args

unsigned-decimal : (k : ℕ) → unsigned (decimal k) ≡ some k
unfolding parse_below
unsigned-decimal k =
    let h = parse_below-decimal (suc k) k (omega arith) in
    elim (Option-cases (unsigned (decimal k))) [ inl e ↦ ground arith | inr (m, e) ↦ ground arith ]

operand_lem : (name : Text) (k : ℕ) → operand name (name ++ decimal k) ≡ some k
operand_lem name k = rw (strip_prefix-append name (decimal k), operand) (unsigned-decimal k)

host-DdReads : DdReads host sda device
unfolding dd_command
host-DdReads ran r off n out same e success =
    let skip = operand_lem (codes "skip=") off in
    let count = operand_lem (codes "count=") n in
    let a : answer (some off) (some n) ≡ ok out = ap₂ answer (sym skip) (sym count) ∙ e in cc a

read-IsStream_example : IsStream (read host) (Good sda device) (rest device)
read-IsStream_example = read-IsStream host sda device host-DdReads

abbrev start : State
start = record {
  reader = record {
    dev = sda;
    len = 3;
    here = 1;
    secret = record { bytes = [] };
    cache = [];
    cache_start = 0;
  };
  ran = [];
}

start-Good : Good sda device start
start-Good = record { same_dev = refl; same_len = refl; cached = refl }

seek-Lands_example :
    let r = seek (from_end (negsuc 0)) start in
    ((q : ℕ) → q + 1 ≡ 3 → q < 2 ^ 64 → (r.0 ≡ ok q) × (rest device r.1 ≡ drop q device))
    × (((q : ℕ) → ¬ (q + 1 ≡ 3)) → (r.0 ≡ err invalid_input) × (r.1 ≡ start))
seek-Lands_example = seek-Lands sda device (from_end (negsuc 0)) start start-Good
