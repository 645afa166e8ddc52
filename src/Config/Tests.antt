-- ===== src/Config/Tests.antt =====
-- intToStr of internal/config/config.go at the port of PostgreSQL.
use event_driven_notificatio.Prelude.{◌≡◌, refl, pos, some, arith}
use event_driven_notificatio.Config.{int_to_str}
use event_driven_notificatio.Prelude.Decimal.{digit, atoi}
use event_driven_notificatio.Config.Port.{atoi-int_to_str}

default_port : int_to_str (pos 5432) ≡ "5432"
unfolding int_to_str digit
default_port = refl

atoi-int_to_str_example : atoi (int_to_str (pos 5432)) ≡ some (pos 5432)
atoi-int_to_str_example = atoi-int_to_str (pos 5432) (omega arith)
