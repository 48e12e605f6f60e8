-- ===== src/Limiter/Tests.antt =====
-- The limiter on a concrete day: two users of one inbound, one of them limited to one device.
use mathlib.Core.Option.{some-injective}
use oldxr.Base.{
  sym, ap, ◌∙◌, ℕ, ◌≡◌, ◌≢◌, ◌<◌, ◌≤◌, ◌↔◌, inl, refl, true, false, none, some, List, [], ◌∷◌,
  length, get_elem?, arith, ℕ_discrete,
}
use oldxr.Base.Int.{ℤ, pos, int_of_u64}
use oldxr.Base.Dict.{load, store}
use oldxr.Base.Text.{Str, Str-discrete, itoa, atoi, after_last}
use oldxr.Base.Text.Decimal.{IsInt64}
use oldxr.Api
use oldxr.Api.{OnlineUser}
use oldxr.Limiter
use oldxr.Limiter.{RateOps, RateLaws, CacheOps, not_found, InboundInfo, Limiter, refuse}
use oldxr.Limiter.Key.{bar, format_user_key}
use oldxr.Limiter.Keys.{uid_of_key, format_user_key_injective}
use oldxr.Limiter.Speed.{determine_rate, IsTightest, determine_rate-IsTightest}
use oldxr.Limiter.Users.{
  key_of, add_inbound_limiter, update_inbound_limiter, delete_inbound_limiter_users,
}
use oldxr.Limiter.Admit.{
  open_devices, local_limit, take_bucket, check_global, get_bucket, get_user_bucket,
}
use oldxr.Limiter.Online.{get_online_device}
use oldxr.Limiter.Views.{devices}
use oldxr.Limiter.Devices.{IsOver}
use oldxr.Limiter.Admission.{
  online, IsUser, LacksGlobalLimit, over_limit_refused, refused_iff_over, device_limit_kept,
}
use oldxr.Limiter.Buckets.{bucket_at, BucketsSeparate}
use oldxr.Limiter.Runs.{Call, add_inbound, connect, new, run, run-new-BucketsSeparate}
use oldxr.Limiter.Removal.{Holds, IsForgotten, deleted_users-IsForgotten}
use oldxr.Limiter.Retuning.{open_bucket_retuned}
use oldxr.Limiter.Reports.{listing, report_resets}

-- A bucket that only knows its rate and its burst.
abbrev plain_rate : RateOps (ℕ × ℤ) ℕ
plain_rate = record {
  limit_of = λ n. n;
  new_limiter = λ r b. (r, b);
  set_limit = λ r x. (r, x.1);
  set_burst = λ b x. (x.0, b);
  limit = λ x. x.0;
  burst = λ x. x.1;
}

plain_rate-laws : RateLaws plain_rate
plain_rate-laws = record {
  limit-new = λ r b. refl;
  burst-new = λ r b. refl;
  limit-set_limit = λ r x. refl;
  limit-set_burst = λ b x. refl;
  burst-set_burst = λ b x. refl;
}

-- A cache that is never found to hold anything.
abbrev no_cache : CacheOps (Unit {0})
no_cache = record {
  new_cache = λ config. tt;
  reserve_ip = none;
  get = λ key g. (not_found, g);
  put = λ key ips g. (true, g);
}

abbrev node_tag : Str
node_tag = b'n' ∷ []

abbrev panel_user : ℤ → Str → ℕ → ℤ → Api.UserInfo
panel_user uid email speed devices_max = record {
  uid = uid;
  email = email;
  passwd = [];
  port = 0;
  method = [];
  speed_limit = speed;
  device_limit = devices_max;
  protocol = [];
  protocol_param = [];
  obfs = [];
  obfs_param = [];
  uuid = [];
  alter_id = 0;
}

abbrev alice : Api.UserInfo
alice = panel_user (pos 7) (b'a' ∷ []) 5 (pos 1)

abbrev bob : Api.UserInfo
bob = panel_user (pos 8) (b'b' ∷ []) 0 (pos 2)

abbrev alice_key : Str
alice_key = b'n' ∷ b'|' ∷ b'a' ∷ b'|' ∷ b'7' ∷ []

abbrev bob_key : Str
bob_key = b'n' ∷ b'|' ∷ b'b' ∷ b'|' ∷ b'8' ∷ []

abbrev home_ip : Str
home_ip = b'h' ∷ []

abbrev work_ip : Str
work_ip = b'w' ∷ []

-- Alice connects once, from home.
abbrev morning : List Call
morning = add_inbound node_tag 10 (alice ∷ bob ∷ []) none ∷ connect node_tag alice_key home_ip ∷ []

abbrev l : Limiter (ℕ × ℤ) (Unit {0})
l = run plain_rate no_cache new morning

abbrev node_info : InboundInfo (Unit {0})
node_info = record {
  tag = node_tag;
  node_speed_limit = 10;
  user_info =
      (alice_key, record { uid = pos 7; speed_limit = 5; device_limit = pos 1 })
      ∷ (bob_key, record { uid = pos 8; speed_limit = 0; device_limit = pos 2 })
      ∷ [];
  bucket_hub = (alice_key, 0) ∷ [];
  user_online_ip = (alice_key, (home_ip, pos 7) ∷ []) ∷ [];
  global_limit = none;
}

alice_key-eq : key_of node_tag alice ≡ alice_key
unfolding format_user_key itoa
alice_key-eq = refl

bob_key-eq : key_of node_tag bob ≡ bob_key
unfolding format_user_key itoa
bob_key-eq = refl

l-eq : l ≡ record { inbound_info = (node_tag, node_info) ∷ []; heap = (5, pos 5) ∷ [] }
unfolding new run format_user_key itoa get_user_bucket get_bucket local_limit open_devices
    take_bucket check_global determine_rate load store Str-discrete ℕ_discrete add_inbound_limiter
l-eq = refl

alice_here :
    IsUser plain_rate no_cache node_tag alice_key l node_info
      (record { uid = pos 7; speed_limit = 5; device_limit = pos 1 })
unfolding new run format_user_key itoa get_user_bucket get_bucket local_limit open_devices
    take_bucket check_global determine_rate load store Str-discrete ℕ_discrete add_inbound_limiter
alice_here = (refl, refl)

-- A second address is refused to Alice, the first is not.
work_is_over :
    IsOver alice_key work_ip
      (record { uid = pos 7; speed_limit = 5; device_limit = pos 1 })
      node_info
unfolding load Str-discrete ℕ_discrete
work_is_over = (refl, refl)

over_limit_refused_example :
    let (l', verdict) = get_user_bucket plain_rate no_cache node_tag alice_key work_ip l in
    (verdict ≡ refuse) × (online node_tag alice_key l' ≡ devices alice_key node_info)
over_limit_refused_example =
    over_limit_refused plain_rate no_cache node_tag alice_key work_ip l alice_here work_is_over

l-LacksGlobalLimit : LacksGlobalLimit plain_rate no_cache node_tag alice_key work_ip l
l-LacksGlobalLimit info here =
    ap (λ i. i.global_limit) (some-injective _ _ (sym here ∙ alice_here.0))

refused_iff_over_example :
    ((get_user_bucket plain_rate no_cache node_tag alice_key work_ip l).1.reject ≡ true) ↔ (
      (info : InboundInfo _) × ((u : Limiter.UserInfo) × IsUser plain_rate no_cache node_tag
          alice_key l info u
        × IsOver alice_key work_ip u info))
refused_iff_over_example =
    refused_iff_over plain_rate no_cache node_tag alice_key work_ip l l-LacksGlobalLimit

home_admitted : (get_user_bucket plain_rate no_cache node_tag alice_key home_ip l).1.reject ≡ false
unfolding new run format_user_key itoa get_user_bucket get_bucket local_limit open_devices
    take_bucket check_global determine_rate load store Str-discrete ℕ_discrete add_inbound_limiter
home_admitted = refl

one_device : length (devices alice_key node_info) ≤ 1
unfolding load Str-discrete ℕ_discrete
one_device = omega arith

device_limit_kept_example :
    length (
      online node_tag alice_key
        (get_user_bucket plain_rate no_cache node_tag alice_key work_ip l).0)
    ≤ 1
device_limit_kept_example =
    device_limit_kept plain_rate no_cache node_tag alice_key work_ip l 0 alice_here refl one_device

run-new-BucketsSeparate_example : BucketsSeparate l
run-new-BucketsSeparate_example = run-new-BucketsSeparate plain_rate no_cache morning

l_separate : BucketsSeparate l
l_separate = run-new-BucketsSeparate plain_rate no_cache morning

bob_is_not_alice : key_of node_tag bob ≢ key_of node_tag alice
unfolding format_user_key itoa
bob_is_not_alice e = ground arith

alice_is_not_bob : key_of node_tag alice ≢ bob_key
unfolding format_user_key itoa
alice_is_not_bob e = ground arith

deleted_users-IsForgotten_example :
    let (l', err) = delete_inbound_limiter_users node_tag (alice ∷ []) l in
    (err ≡ none)
    × ((info' : InboundInfo (Unit {0})) × (load Str-discrete node_tag l'.inbound_info ≡ some info')
        × IsForgotten (key_of node_tag alice) info'
        × Holds bob_key node_info info')
deleted_users-IsForgotten_example =
    deleted_users-IsForgotten node_tag l (alice ∷ []) alice bob_key alice_here.0 (inl refl)
      (alice_is_not_bob, tt)

alice_bucket : bucket_at node_tag (key_of node_tag alice) l ≡ some 0
unfolding new run format_user_key itoa get_user_bucket get_bucket local_limit open_devices
    take_bucket check_global determine_rate load store Str-discrete ℕ_discrete add_inbound_limiter
alice_bucket = refl

-- The panel lowers Alice's speed.
abbrev slow_alice : Api.UserInfo
slow_alice = record alice { speed_limit = 3 }

slow_rate : 0 < determine_rate 10 3
unfolding determine_rate
slow_rate = omega arith

open_bucket_retuned_example :
    let l' = (update_inbound_limiter plain_rate node_tag (bob ∷ slow_alice ∷ []) l).0 in
    (bucket_at node_tag (key_of node_tag slow_alice) l' ≡ some 0)
    × ((b : ℕ × ℤ) × (get_elem? l'.heap 0 ≡ some b)
        × (b.0 ≡ determine_rate 10 3)
        × (b.1 ≡ int_of_u64 (determine_rate 10 3)))
open_bucket_retuned_example =
    open_bucket_retuned plain_rate plain_rate-laws node_tag l (bob ∷ []) [] slow_alice node_info 0
      l_separate alice_here.0 alice_bucket (bob_is_not_alice, tt) tt slow_rate

report_resets_example :
    let (l', answer) = get_online_device node_tag l in
    (answer ≡ inl (listing node_info.user_online_ip))
    × ((info' : InboundInfo (Unit {0})) × (load Str-discrete node_tag l'.inbound_info ≡ some info')
        × (info'.user_info ≡ node_info.user_info)
        × (load Str-discrete alice_key info'.user_online_ip ≡ none)
        × (load Str-discrete alice_key info'.bucket_hub
            ≡ (elim (load Str-discrete alice_key node_info.user_online_ip) [
              | none ↦ none
              | some ips ↦ load Str-discrete alice_key node_info.bucket_hub
            ])))
report_resets_example = report_resets node_tag l alice_key alice_here.0

determine_rate-IsTightest_example : IsTightest 10 5 (determine_rate 10 5)
determine_rate-IsTightest_example = determine_rate-IsTightest 10 5

seven : IsInt64 (pos 7)
seven = omega arith

uid_of_key_example :
    (s : Str) × (after_last bar (format_user_key node_tag (b'|' ∷ []) (pos 7)) ≡ some s)
    × (s ≢ [])
    × (atoi s ≡ some (pos 7))
uid_of_key_example = uid_of_key node_tag (b'|' ∷ []) (pos 7) seven

format_user_key_injective_example : (home_ip ≡ home_ip) × (pos 7 ≡ pos 7)
format_user_key_injective_example =
    format_user_key_injective node_tag home_ip home_ip (pos 7) (pos 7) seven seven refl
