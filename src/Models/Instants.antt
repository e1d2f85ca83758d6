-- ===== src/Models/Instants.antt =====
-- Dates with times. A stored time is timezone-aware, and is kept as microseconds of UTC.
use analyst_watch.Prelude.{ℕ, ◌*◌, Option, none, some}

abbrev pub Instant : Type 0
Instant = ℕ

-- A `datetime` argument: without a time zone, or with one, by the microseconds that it shows or
-- stands for.
pub data DateTime : Type 0 where
  naive aware : Instant → DateTime

-- `timedelta(minutes=n)`
abbrev pub minutes : ℕ → ℕ
minutes n = n * 60000000

-- `timedelta(days=n)`
abbrev pub days : ℕ → ℕ
days n = n * 86400000000

-- `if value.tzinfo is None: value = value.replace(tzinfo=timezone.utc)`
abbrev pub assume_utc : DateTime → Instant
assume_utc (naive t) = t
assume_utc (aware t) = t

-- `now or datetime.now(timezone.utc)`, then `assume_utc`; the clock's reading is an argument.
abbrev pub now_or_clock : Option DateTime → Instant → Instant
now_or_clock none clock = clock
now_or_clock (some now) clock = assume_utc now
