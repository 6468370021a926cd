-- ===== src/RateLimiter/Redis/Tests.antt =====
-- The Redis rate limiter over a concrete server: each key has a counter and a time of expiry.
use network_mcp.Base.{
  ◌≡◌, ◌≢◌, refl, ℕ, ◌+◌, ◌≤◌, ◌<◌, min, String, some, List, [], ◌∷◌, ltb, length, if◌then◌else◌,
  Time, seconds, arith, str_discrete, ite, if_pos, if_neg,
}
use mathlib.Core.Path.{subst}
use mathlib.Core.Option.{some-injective}
use network_mcp.RateLimiter.Redis.{RedisCounters, RedisRateLimiter, key, rate_for}
use network_mcp.RateLimiter.Redis.Window.{admitted, admitted-starves}

abbrev Server : Type 0
Server = String → ℕ × Time

unfoldable count_on : Time → String → Server → ℕ
count_on now key s = if ltb now (s key).1 then (s key).0 else 0

unfoldable incr_on : Time → String → Server → Server
unfolding count_on
incr_on now key s = λ j. ite (str_discrete key j) (count_on now key s + 1, now + seconds 1) (s j)

incr_on_self :
    (now : Time) (key : String) (s : Server)
    → incr_on now key s key ≡ (count_on now key s + 1, now + seconds 1)
unfolding incr_on
incr_on_self now key s = if_pos (str_discrete key key) refl _ _

within_on :
    (now later : Time) (key : String) (s : Server)
    → later < now + seconds 1
    → count_on later key (incr_on now key s) ≡ count_on now key s + 1
unfolding count_on
within_on now later key s h = rw (incr_on_self now key s) (ground arith)

after_on :
    (now later : Time) (key : String) (s : Server)
    → now + seconds 1 ≤ later
    → count_on later key (incr_on now key s) ≡ 0
unfolding count_on
after_on now later key s h = rw (incr_on_self now key s) (ground arith)

other_on :
    (now later : Time) (key j : String) (s : Server)
    → key ≢ j
    → count_on later j (incr_on now key s) ≡ count_on later j s
unfolding count_on incr_on
other_on now later key j s n =
    rw (if_neg (str_discrete key j) n (count_on now key s + 1, now + seconds 1) (s j)) refl

abbrev server : RedisCounters
server = record {
  Store = Server;
  Up = λ s. Unit;
  count = count_on;
  incr_expire = λ now key s. some (incr_on now key s, count_on now key s + 1);
  ttl = λ now key s. some 1;
  delete = λ key s. some (λ j. ite (str_discrete key j) (0, 0) (s j));
  incr_up = λ now key s up. (incr_on now key s, refl, tt);
  count_within = λ now later key s s' n e a b.
      subst (λ (q : Server × ℕ). count_on later key q.0 ≡ q.1) (some-injective _ _ e)
        (within_on now later key s b);
  count_after = λ now later key s s' n e a.
      subst (λ (q : Server × ℕ). count_on later key q.0 ≡ 0) (some-injective _ _ e)
        (after_on now later key s a);
  count_other = λ now later key j s s' n e d.
      subst (λ (q : Server × ℕ). count_on later j q.0 ≡ count_on later j s) (some-injective _ _ e)
        (other_on now later key j s d);
}

abbrev empty_server : Server
empty_server = λ j. (0, 0)

abbrev two_a_second : RedisRateLimiter
two_a_second = record {
  show_rate = 2;
  show_burst = 10;
  config_rate = 1;
  config_burst = 2;
  key_prefix = "netmcp:ratelimit";
}

nothing_counted : (now : Time) (k : String) → count_on now k empty_server ≡ 0
unfolding count_on
nothing_counted now k = ground arith

-- A request every 0.6 seconds, with two a second allowed.
abbrev steady : List Time
steady = 600_000_000 ∷ 1_200_000_000 ∷ 1_800_000_000 ∷ 2_400_000_000 ∷ []

admitted-starves_example :
    admitted server two_a_second "spine-01" steady empty_server
    ≡ min (length steady) (rate_for two_a_second "show")
admitted-starves_example =
    admitted-starves server two_a_second "spine-01" 0 steady empty_server tt
      (
        omega arith,
        omega arith,
        (omega arith, omega arith, (omega arith, omega arith, (omega arith, omega arith, tt))),
      )
      (λ now a b. nothing_counted now _)
