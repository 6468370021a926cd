-- ===== src/RateLimiter/Limiters/Budgets.antt =====
-- The budgets of show and of config commands of the devices, over any checks.
use network_mcp.Base.{
  ℕ, ◌≡◌, ◌≢◌, refl, Bool, true, false, String, Option, none, some, List, [], ◌∷◌, if◌then◌else◌,
  Time, str_discrete, ite, if_pos, if_neg, ap, ◌∙◌, sym,
}
use network_mcp.Dict
use network_mcp.Dict.Laws.{get-put, get-put_ne}
use network_mcp.RateLimiter
use network_mcp.RateLimiter.{TokenBucket, acquire}
use network_mcp.RateLimiter.Limiters.{
  Pool, DeviceRateLimiter, or_fresh, draw, get_or_create, get_show_bucket, get_config_bucket,
  check_show, check_config,
}

pub data Kind : Type 0 where
  show : Kind
  config : Kind

-- A check of a device, at its time.
abbrev pub Check : Type 0
Check = Kind × String × Time

unfoldable pub step : ℕ → DeviceRateLimiter → Check → DeviceRateLimiter
step one l (show, host, now) = (check_show one now host l).0
step one l (config, host, now) = (check_config one now host l).0

unfoldable pub run : ℕ → DeviceRateLimiter → List Check → DeviceRateLimiter
run one l [] = l
run one l (e ∷ es) = run one (step one l e) es

-- The rate, the burst and the bucket, if there is one, of a device's budget.
abbrev pub Budget : Type 0
Budget = ℕ × ℕ × Option TokenBucket

unfoldable pub budget_of : Kind → String → DeviceRateLimiter → Budget
budget_of show host l = (l.show_rate, l.show_burst, Dict.get str_discrete host l.show_buckets)
budget_of config host l =
    (l.config_rate, l.config_burst, Dict.get str_discrete host l.config_buckets)

-- One check on a budget alone: the first makes the bucket, full.
unfoldable pub spend : ℕ → Budget → Time → Budget
spend one (rate, burst, none) now =
    (rate, burst, some (acquire now one (RateLimiter.init rate burst now)).0)
spend one (rate, burst, some b) now = (rate, burst, some (acquire now one b).0)

unfoldable same_kind : Kind → Kind → Bool
same_kind show show = true
same_kind show config = false
same_kind config show = false
same_kind config config = true

-- What the checks of one kind on one host do to a budget, the others left out.
unfoldable pub spend_own : ℕ → Kind → String → Budget → List Check → Budget
unfolding same_kind
spend_own one k host a [] = a
spend_own one k host a ((k', h, now) ∷ es) =
    let mine = spend_own one k host (spend one a now) es in
    let other = spend_own one k host a es in
    if same_kind k' k then ite (str_discrete h host) mine other else other

unfoldable spend_one : ℕ → ℕ → ℕ → Time → Option TokenBucket → TokenBucket
spend_one one rate burst now none = (acquire now one (RateLimiter.init rate burst now)).0
spend_one one rate burst now (some b) = (acquire now one b).0

drawn :
    (one rate burst now : ℕ) (h : String) (pool : Pool) (o : Option TokenBucket)
    → (acquire now one (or_fresh (RateLimiter.init rate burst now) h pool o).1).0
      ≡ spend_one one rate burst now o
unfolding or_fresh spend_one
drawn one rate burst now h pool none = refl
drawn one rate burst now h pool (some b) = refl

fresh_apart :
    (fresh : TokenBucket) (h j : String) (pool : Pool) (o : Option TokenBucket)
    → h ≢ j
    → Dict.get str_discrete j (or_fresh fresh h pool o).0 ≡ Dict.get str_discrete j pool
unfolding or_fresh
fresh_apart fresh h j pool none n = get-put_ne str_discrete h j fresh pool n
fresh_apart fresh h j pool (some b) n = refl

get-draw :
    (one rate burst now : ℕ) (h j : String) (pool : Pool)
    → Dict.get str_discrete j (draw now one (RateLimiter.init rate burst now) h pool).0
      ≡ ite
          (str_discrete h j)
          (some (spend_one one rate burst now (Dict.get str_discrete j pool)))
          (Dict.get str_discrete j pool)
unfolding draw get_or_create
get-draw one rate burst now h j pool =
    let fresh = RateLimiter.init rate burst now in
    let there = Dict.get str_discrete in
    elim (str_discrete h j) [
      | yes p ↦
          get-put str_discrete h j _ _
          ∙ if_pos (str_discrete h j) p _ _
          ∙ ap some (drawn one rate burst now h pool (there h pool))
          ∙ ap (λ i. some (spend_one one rate burst now (there i pool))) p
          ∙ sym (if_pos (str_discrete h j) p _ _)
      | no n ↦
          get-put str_discrete h j _ _
          ∙ if_neg (str_discrete h j) n _ _
          ∙ fresh_apart fresh h j pool (there h pool) n
          ∙ sym (if_neg (str_discrete h j) n _ _)
    ]

spend-some :
    (one rate burst now : ℕ) (o : Option TokenBucket)
    → spend one (rate, burst, o) now ≡ (rate, burst, some (spend_one one rate burst now o))
unfolding spend spend_one
spend-some one rate burst now none = refl
spend-some one rate burst now (some b) = refl

if_spent :
    (one rate burst now : ℕ) (h j : String) (pool : Pool)
    → (
      rate,
      burst,
      Dict.get str_discrete j (draw now one (RateLimiter.init rate burst now) h pool).0,
    )
      ≡ ite
          (str_discrete h j)
          (spend one (rate, burst, Dict.get str_discrete j pool) now)
          (rate, burst, Dict.get str_discrete j pool)
if_spent one rate burst now h j pool =
    let e = get-draw one rate burst now h j pool in
    elim (str_discrete h j) [
      | yes p ↦
          ap (λ o. (rate, burst, o)) (e ∙ if_pos (str_discrete h j) p _ _)
          ∙ sym (spend-some one rate burst now _)
          ∙ sym (if_pos (str_discrete h j) p _ _)
      | no n ↦
          ap (λ o. (rate, burst, o)) (e ∙ if_neg (str_discrete h j) n _ _)
          ∙ sym (if_neg (str_discrete h j) n _ _)
    ]

-- A check draws on the budget of its kind and host, and on no other.
budget_of-step :
    (one : ℕ) (l : DeviceRateLimiter) (k' k : Kind) (h j : String) (now : Time)
    → budget_of k j (step one l (k', h, now)) ≡ (
        if same_kind k' k
        then ite (str_discrete h j) (spend one (budget_of k j l) now) (budget_of k j l)
        else budget_of k j l)
unfolding step budget_of same_kind check_show check_config get_show_bucket get_config_bucket
budget_of-step one l show show h j now = unfold draw in if_spent one _ _ now h j l.show_buckets
budget_of-step one l show config h j now = refl
budget_of-step one l config show h j now = refl
budget_of-step one l config config h j now =
    unfold draw in if_spent one _ _ now h j l.config_buckets

-- Whatever checks are made, of show and of config commands and of all devices in any order, the
-- budget of a kind on a host is what that kind's checks on that host alone make of it, in order.
pub run-budget_of :
    (one : ℕ) (l : DeviceRateLimiter) (es : List Check) (k : Kind) (j : String)
    → budget_of k j (run one l es) ≡ spend_own one k j (budget_of k j l) es
unfolding run spend_own
run-budget_of one l [] k j = refl
run-budget_of one l ((k', h, now) ∷ es) k j =
    let ih = run-budget_of one (step one l (k', h, now)) es k j in
    let here = budget_of-step one l k' k h j now in
    ih ∙ ap (λ a. spend_own one k j a es) here ∙ push (same_kind k' k) (str_discrete h j)
  where
    push :
        (b : Bool) (d : Dec (h ≡ j))
        → spend_own one k j
            (if b
              then ite d (spend one (budget_of k j l) now) (budget_of k j l)
              else budget_of k j l)
            es
          ≡ (if b
              then ite d
                  (spend_own one k j (spend one (budget_of k j l) now) es)
                  (spend_own one k j (budget_of k j l) es)
              else spend_own one k j (budget_of k j l) es)
    push true (yes p) = refl
    push true (no n) = refl
    push false d = refl
