-- ===== src/Limiter/Retuning.antt =====
-- `UpdateInboundLimiter` changes the speed of the connections that are open: their bucket stays
-- where it is, and is retuned.
use oldxr.Base.{
  ℕ, ◌<◌, ◌≡◌, refl, ◌∙◌, ◌≢◌, ◌++◌, some, List, [], ◌∷◌, All, arith, get_elem?, get_elem?-set_self,
  get_elem?-set_ne, get_elem?-lt, get_elem?_of-lt,
}
use oldxr.Base.Dict.{load, load-delete, load-store_self}
use oldxr.Base.Int.{int_of_u64}
use oldxr.Base.Text.{Str, Str-discrete}
use oldxr.Api
use oldxr.Limiter.{RateOps, RateLaws, InboundInfo, Limiter}
use oldxr.Limiter.Speed.{determine_rate}
use oldxr.Limiter.Users.{key_of, update_user, update_users, update_inbound_limiter}
use oldxr.Limiter.Buckets.{bucket_at, BucketsSeparate}

-- The bucket after the update of its user.
abbrev pub tuned : {B R : Type 0} → RateOps B R → ℕ → B → B
tuned rate limit b = rate.set_burst (int_of_u64 limit) (rate.set_limit (rate.limit_of limit) b)

-- The bucket of `email` is at `a`, alone, and holds `b`; `node` is the inbound's limit.
record Owns {B G : Type 0} (node : ℕ) (email : Str) (a : ℕ) (b : B) (info : InboundInfo G)
    (heap : List B) : Type 0 where
  bounded : info.node_speed_limit ≡ node
  here : load Str-discrete email info.bucket_hub ≡ some a
  alone : (e : Str) → load Str-discrete e info.bucket_hub ≡ some a → email ≡ e
  content : get_elem? heap a ≡ some b

module _ {B R G : Type 0} (rate : RateOps B R) (tag : Str) (node : ℕ) where
  -- An update of another user does not touch it.
  update_user_other :
      (v : Api.UserInfo) (email : Str) (a : ℕ) (b : B) (info : InboundInfo G) (heap : List B)
      → key_of tag v ≢ email
      → Owns node email a b info heap
      → let s = update_user rate tag v (info, heap) in Owns node email a b s.0 s.1
  unfolding update_user
  update_user_other v email a b info heap ne o = record {
    bounded = ground (arith, o.bounded);
    here = ground (arith, o.here, load-delete Str-discrete (key_of tag v) email info.bucket_hub);
    alone =
        λ e h. ground (arith, o.alone e, load-delete Str-discrete (key_of tag v) e info.bucket_hub);
    content = grind (arith, o.content, o.alone (key_of tag v), get_elem?-set_ne);
  }

  update_user_own :
      (u : Api.UserInfo) (a : ℕ) (b : B) (info : InboundInfo G) (heap : List B)
      → 0 < determine_rate node u.speed_limit
      → Owns node (key_of tag u) a b info heap
      → let s = update_user rate tag u (info, heap) in
        Owns node (key_of tag u) a (tuned rate (determine_rate node u.speed_limit) b) s.0 s.1
  unfolding update_user
  update_user_own u a b info heap pos o = record {
    bounded = ground (arith, o.bounded);
    here = ground (arith, o.bounded, o.here);
    alone = λ e h. ground (arith, o.bounded, o.alone e);
    content = ground (
      arith,
      o.bounded,
      o.here,
      o.content,
      get_elem?-set_self heap a (tuned rate (determine_rate node u.speed_limit) b),
      get_elem?-lt heap a b,
    );
  }

  update_users_other :
      (us : List Api.UserInfo) (email : Str) (a : ℕ) (b : B) (info : InboundInfo G) (heap : List B)
      → All (λ v. key_of tag v ≢ email) us
      → Owns node email a b info heap
      → let s = update_users rate tag us (info, heap) in Owns node email a b s.0 s.1
  unfolding update_users
  update_users_other [] email a b info heap ne o = o
  update_users_other (v ∷ us) email a b info heap ne o =
      let s = update_user rate tag v (info, heap) in
      update_users_other us email a b s.0 s.1 ne.1 (update_user_other v email a b info heap ne.0 o)

  update_users_own :
      (xs ys : List Api.UserInfo) (u : Api.UserInfo) (a : ℕ) (b : B) (info : InboundInfo G)
      (heap : List B)
      → All (λ v. key_of tag v ≢ key_of tag u) xs
      → All (λ v. key_of tag v ≢ key_of tag u) ys
      → 0 < determine_rate node u.speed_limit
      → Owns node (key_of tag u) a b info heap
      → let s = update_users rate tag (xs ++ u ∷ ys) (info, heap) in
        Owns node (key_of tag u) a (tuned rate (determine_rate node u.speed_limit) b) s.0 s.1
  unfolding update_users
  update_users_own [] ys u a b info heap nx ny pos o =
      let s = update_user rate tag u (info, heap) in
      update_users_other ys (key_of tag u) a _ s.0 s.1 ny (update_user_own u a b info heap pos o)
  update_users_own (v ∷ xs) ys u a b info heap nx ny pos o =
      let s = update_user rate tag v (info, heap) in
      update_users_own xs ys u a b s.0 s.1 nx.1 ny pos
        (update_user_other v (key_of tag u) a b info heap nx.0 o)

module _ {B R G : Type 0} (rate : RateOps B R) (laws : RateLaws rate) (tag : Str)
    (l : Limiter B G) where
  -- An update of several users, one of them with a speed limit and a bucket: the bucket stays at
  -- its address and there gets the new limit as its rate and its burst, so that the connections
  -- that hold it are slowed or sped up.
  pub open_bucket_retuned :
      (xs ys : List Api.UserInfo) (u : Api.UserInfo) (info : InboundInfo G) (a : ℕ)
      → BucketsSeparate l
      → load Str-discrete tag l.inbound_info ≡ some info
      → bucket_at tag (key_of tag u) l ≡ some a
      → All (λ v. key_of tag v ≢ key_of tag u) xs
      → All (λ v. key_of tag v ≢ key_of tag u) ys
      → 0 < determine_rate info.node_speed_limit u.speed_limit
      → let limit = determine_rate info.node_speed_limit u.speed_limit in
        let l' = (update_inbound_limiter rate tag (xs ++ u ∷ ys) l).0 in
        (bucket_at tag (key_of tag u) l' ≡ some a)
        × ((b : B) × (get_elem? l'.heap a ≡ some b)
            × (rate.limit b ≡ rate.limit_of limit)
            × (rate.burst b ≡ int_of_u64 limit))
  unfolding update_inbound_limiter
  open_bucket_retuned xs ys u info a sep here at nx ny pos =
      let limit = determine_rate info.node_speed_limit u.speed_limit in
      let (b, content) = get_elem?_of-lt l.heap a (sep.allocated tag (key_of tag u) a at) in
      let owned =
        update_users_own rate tag info.node_speed_limit xs ys u a b info l.heap nx ny pos (record {
          bounded = refl;
          here = ground arith;
          alone = λ e h. (sep.unshared tag (key_of tag u) tag e a at (ground arith)).1;
          content = content;
        }) in
      rw (here, update_inbound_limiter)
        (
          ground (
            arith,
            owned.here,
            load-store_self Str-discrete tag (update_users rate tag (xs ++ u ∷ ys) (info, l.heap)).0
                l.inbound_info,
          ),
          (
            tuned rate limit b,
            owned.content,
            laws.limit-set_burst _ _ ∙ laws.limit-set_limit _ _,
            laws.burst-set_burst _ _,
          ),
        )
