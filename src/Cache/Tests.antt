-- ===== src/Cache/Tests.antt =====
-- SetNX, Get and Delete of internal/adapter/cache/redis.go on no keys.
use event_driven_notificatio.Prelude.{◌≡◌, refl, true, false, none}
use event_driven_notificatio.Domain.Errors.{ok}
use event_driven_notificatio.Cache.{Keys, get, set_nx}

abbrev no_keys : Keys
no_keys k = none

abbrev locked : Keys
locked = (set_nx none 100 "lock" "a" 10 no_keys).1

test_held : (set_nx none 105 "lock" "b" 10 locked).0 ≡ ok false
unfolding set_nx
test_held = refl

test_lapsed : (set_nx none 110 "lock" "b" 10 locked).0 ≡ ok true
unfolding set_nx
test_lapsed = refl

test_holder : get none 105 "lock" locked ≡ ok "a"
unfolding set_nx get
test_holder = refl
