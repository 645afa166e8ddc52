-- ===== src/Config.antt =====
-- internal/config/config.go: DatabaseConfig.DSN and intToStr. The loop of intToStr is a recursion on
-- the proof that its variable is accessible.
pub mod Port
mod Tests
use Prim.Native.String.{String, ◌++◌}
use mathlib.Core.Logic.{dite}
use mathlib.Core.WellFounded.{Acc}
use native.Mathlib.Decide.{dec_lt}
use event_driven_notificatio.Prelude.{
  ℕ, zero, suc, ◌/◌, ◌<◌, ℤ, pos, negsuc, arith, if◌then◌else◌, ◌==◌,
}
use event_driven_notificatio.Prelude.Decimal.{digit}

Acc-below : (k n : ℕ) → n < k → Acc ◌<◌ n
Acc-below zero n h = elim h [ ]
Acc-below (suc k) n h = Acc.intro n (λ m l. Acc-below k m (omega arith))

-- Every int is accessible.
unfoldable pub smaller_ints : (n : ℕ) → Acc ◌<◌ n
unfolding Acc-below
smaller_ints n = Acc-below (suc n) n (omega arith)

-- for n > 0 { s = string(rune('0'+n%10)) + s; n /= 10 }
unfoldable pub write_digits : (n : ℕ) → String → Acc ◌<◌ n → String
unfolding dec_lt
write_digits n s (Acc.intro _ smaller) =
    dite (dec_lt 0 n)
      (λ h. write_digits (n / 10) (String.◌∷◌ (digit n) s) (smaller (n / 10) (omega arith)))
      (λ _. s)

-- intToStr
unfoldable pub int_to_str : ℤ → String
unfolding write_digits smaller_ints
int_to_str (pos n) = if n == 0 then "0" else write_digits n "" (smaller_ints n)
int_to_str (negsuc n) = ""

-- DatabaseConfig
pub record DatabaseConfig : Type 0 where
  pub host : String
  pub port : ℤ
  pub user : String
  pub password : String
  pub name : String
  pub ssl_mode : String
  pub max_conns : ℤ

-- DatabaseConfig.DSN
unfoldable pub dsn : DatabaseConfig → String
unfolding int_to_str
dsn d =
    "postgres://"
    ++ (d.user
        ++ (":"
            ++ (d.password
                ++ ("@"
                    ++ (d.host
                        ++ (":"
                            ++ (int_to_str d.port
                                ++ ("/" ++ (d.name ++ ("?sslmode=" ++ d.ssl_mode))))))))))
