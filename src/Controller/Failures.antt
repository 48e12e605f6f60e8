-- ===== src/Controller/Failures.antt =====
-- What the node monitor does not try again.
use mathlib.Core.Option.{some-injective}
use oldxr.Base.{
  ◌≡◌, ◌∙◌, refl, sym, ap, subst, true, false, Option, none, some, List, [], ◌∷◌, ◌++◌, arith,
  Option-cases, inl, inr, All, All-map,
}
use oldxr.Base.Text.{Str}
use oldxr.Api.{UserInfo}
use oldxr.Users.{same_runtime_user, same_limits, Changes, no_changes, compare_user_list}
use oldxr.Users.Selected.{
  find_last, is_changed, is_limited_anew, select_added, select_limited, select_replaced,
  select_gone, store_uids, compare_user_list-selects,
}
use oldxr.Users.Applied.{IsDistinct, load-store_uids}
use oldxr.Controller.{Environment, Controller, Error}
use oldxr.Controller.Builders.{build_users}
use oldxr.Controller.Server.{add_users, remove_users}
use oldxr.Controller.Retirement.{runtime_user_emails, register_managed_users, retire_managed_users}
use oldxr.Controller.Monitor.{
  add_new_user, add_added, update_limits, remove_deleted, end_removal, apply_changes, check_rule,
  keep_node,
}
use oldxr.Controller.Keys.{find_key}
use oldxr.Controller.Updates.{selected}
use oldxr.Controller.Serving.{admits}
use oldxr.Controller.Steps.{
  Admits, Admits-with, Admits-again, retire_managed_users-Admits, register_managed_users-Admits,
}
use oldxr.Controller.Changing.{update_limits-Limits, remove_deleted-ends}
use oldxr.Controller.Rounds.{check_rule-leaves}

same_as_itself : (u : UserInfo) → (same_runtime_user u u ≡ true) × (same_limits u u ≡ true)
unfolding same_runtime_user same_limits
same_as_itself u = ground arith

module _ (l : List UserInfo) where
  abbrev Finds : UserInfo → Type 0
  Finds u = find_last u.uid l ≡ some u

  selects_nothing :
      (us : List UserInfo)
      → All Finds us
      → (select_added l us ≡ []) × (select_limited l us ≡ []) × (select_replaced l us ≡ [])
  unfolding select_added select_limited select_replaced is_changed is_limited_anew
  selects_nothing [] h = (refl, refl, refl)
  selects_nothing (u ∷ us) h = ground (arith, selects_nothing us h.1, h.0, same_as_itself u)

distinct_found : (l : List UserInfo) → IsDistinct l → All (Finds l) l
unfolding find_last IsDistinct
distinct_found [] d = tt
distinct_found (u ∷ us) d =
    (ground (arith, d.0), All-map (λ v h. ground (arith, h)) us (distinct_found us d.1))

nobody_gone : (us l : List UserInfo) → All (Finds l) us → select_gone us (store_uids l []) ≡ []
unfolding select_gone
nobody_gone [] l h = refl
nobody_gone (u ∷ us) l h = ground (arith, nobody_gone us l h.1, h.0, load-store_uids l u.uid l [])

-- A list compared with itself has no changes.
same_list : (l : List UserInfo) → IsDistinct l → selected l l ≡ no_changes
same_list l d =
    let h = distinct_found l d in ground (arith, selects_nothing l l h, nobody_gone l l h)

module _ {X C O H I M V B R G P K S : Type 0} (env : Environment X C O H I M V B R G P K) where
  -- What the server answers when the users are added.
  abbrev pub add_error : List UserInfo → Controller X B G P S K → Option Error
  add_error us c =
      elim (build_users env.panel_type env.encode_base64 env.methods_2022 us c.node_info c.tag) [
        | none ↦ none
        | some users ↦ (add_users env.server_ops users c.tag c.server).1
      ]

  add_added-refuses :
      (us : List UserInfo) (c : Controller X B G P S K) (err : Error)
      → add_error us c ≡ some err
      → Admits false us c (add_added env us c)
  unfolding add_added add_new_user retire_managed_users register_managed_users
  add_added-refuses [] c err h = retire_managed_users-Admits [] c
  add_added-refuses (u ∷ us) c err h =
      elim (Option-cases (
        build_users env.panel_type env.encode_base64 env.methods_2022 (u ∷ us) c.node_info c.tag)) [
          | inl e ↦ absurd (ground (arith, e, h))
          | inr (users, e) ↦
              let x = (add_users env.server_ops users c.tag c.server).0 in
              let registered = register_managed_users c.tag (u ∷ us) c in
              let c2 = record registered { server = x } in
              let failed : add_new_user env (u ∷ us) c.node_info c.tag c
                  ≡ (retire_managed_users c.tag (u ∷ us) c2, some err) =
                ground (arith, e, h) in
              subst (λ r. Admits false (u ∷ us) c (r.0)) (sym failed)
                (Admits-again
                  (Admits-with x registered.limiter refl (register_managed_users-Admits (u ∷ us) c))
                  (retire_managed_users-Admits (u ∷ us) c2))
        ]

  -- A round that finds the panel's list to be the controller's own does nothing for its users.
  keep_node-same :
      (c c' : Controller X B G P S K)
      → IsDistinct c.user_list
      → keep_node env c.user_list true c ≡ some c'
      → (c'.user_flows ≡ c.user_flows) × (c'.tag ≡ c.tag)
  unfolding keep_node apply_changes remove_deleted add_added update_limits
  keep_node-same c c' d h =
      let (t, f, lim, ul, n) = check_rule-leaves env c.tag c in
      let compared : compare_user_list c.user_list c.user_list ≡ some no_changes =
        compare_user_list-selects c.user_list c.user_list ∙ ap some (same_list c.user_list d) in
      let ended : keep_node env c.user_list true c
          ≡ some (record (check_rule env c.tag c) { user_list = c.user_list }) =
        ground (arith, compared) in
      let same = some-injective _ _ (sym h ∙ ended) in
      (ap (λ r. r.user_flows) same ∙ f, ap (λ r. r.tag) same ∙ t)

  -- Where the numbers of a new list are distinct, its users whom the server fails to take, in a
  -- round that deletes nobody, are refused; the list is the controller's all the same, and so the
  -- next round with the same list leaves them refused.
  pub failed_add_not_retried :
      (users : List UserInfo) (changes : Changes) (c c1 c2 : Controller X B G P S K) (err : Error)
      (email : Str) (u : UserInfo)
      → IsDistinct users
      → compare_user_list c.user_list users ≡ some changes
      → changes.deleted ≡ []
      → add_error changes.added (check_rule env c.tag c) ≡ some err
      → find_key c.tag email changes.added ≡ some u
      → keep_node env users true c ≡ some c1
      → keep_node env users true c1 ≡ some c2
      → (c1.user_list ≡ users)
        × (admits c.tag email c1.user_flows ≡ false)
        × (admits c.tag email c2.user_flows ≡ false)
  unfolding keep_node apply_changes remove_deleted
  failed_add_not_retried users changes c c1 c2 err email u d compared nobody failed found first
        second =
      let checked = check_rule env c.tag c in
      let (t, f, lim, ul, n) = check_rule-leaves env c.tag c in
      let added = add_added env changes.added checked in
      let refused = add_added-refuses changes.added checked err failed in
      let updates = changes.added ++ changes.limit_updated in
      let updated = update_limits env updates added in
      let ended : keep_node env users true c ≡ some (record updated { user_list = users }) =
        ground (arith, compared, nobody) in
      let same = some-injective _ _ (sym first ∙ ended) in
      let listed : c1.user_list ≡ users = ap (λ r. r.user_list) same in
      let now : admits c.tag email c1.user_flows ≡ false = ground (
        arith,
        refused.admission email,
        (update_limits-Limits env updates added).user_flows,
        ap (λ r. r.user_flows) same,
        t,
        found,
      ) in
      let again : keep_node env c1.user_list true c1 ≡ some c2 =
        subst (λ l. keep_node env l true c1 ≡ some c2) (sym listed) second in
      let still = keep_node-same c1 c2 (subst IsDistinct (sym listed) d) again in
      (listed, now, ap (admits c.tag email) still.0 ∙ now)

  -- What the server answers when the users are removed.
  abbrev pub remove_error : List UserInfo → Controller X B G P S K → Option Error
  remove_error us c = (remove_users env.server_ops (runtime_user_emails c.tag us) c.tag c.server).1

  end_removal-false :
      (us : List UserInfo) (c : Controller X B G P S K) (answer : X × Option Error) (err : Error)
      → answer.1 ≡ some err
      → (end_removal env us c answer).1 ≡ false
  unfolding end_removal
  end_removal-false us c (x, none) err h = absurd (cc)
  end_removal-false us c (x, some e) err h = refl

  remove_deleted-false :
      (us : List UserInfo) (c : Controller X B G P S K) (err : Error) (email : Str) (u : UserInfo)
      → remove_error us c ≡ some err
      → find_key c.tag email us ≡ some u
      → (remove_deleted env us c).1 ≡ false
  unfolding remove_deleted find_key retire_managed_users
  remove_deleted-false [] c err email u h found = absurd (cc)
  remove_deleted-false (v ∷ us) c err email u h found =
      end_removal-false (v ∷ us) (retire_managed_users c.tag (v ∷ us) c)
        (remove_users env.server_ops (runtime_user_emails c.tag (v ∷ us)) c.tag c.server) err h

  -- Users who are not in the new list and whom the server fails to remove are admitted again, and
  -- the controller keeps its old list. Where the panel's client then answers that the list has not
  -- changed, the next round leaves them admitted, and the old list in place.
  pub failed_removal_not_retried :
      (users : List UserInfo) (changes : Changes) (c c1 c2 : Controller X B G P S K) (err : Error)
      (email : Str) (u : UserInfo)
      → compare_user_list c.user_list users ≡ some changes
      → remove_error changes.deleted (check_rule env c.tag c) ≡ some err
      → find_key c.tag email changes.deleted ≡ some u
      → keep_node env users true c ≡ some c1
      → keep_node env c1.user_list false c1 ≡ some c2
      → (c2.user_list ≡ c.user_list) × (admits c.tag email c2.user_flows ≡ true)
  unfolding keep_node apply_changes
  failed_removal_not_retried users changes c c1 c2 err email u compared failed found first second =
      let checked = check_rule env c.tag c in
      let (t, f, lim, ul, n) = check_rule-leaves env c.tag c in
      let found' : find_key checked.tag email changes.deleted ≡ some u =
        ap (λ tag. find_key tag email changes.deleted) t ∙ found in
      let ended = remove_deleted-false changes.deleted checked err email u failed found' in
      let kept : keep_node env users true c
          ≡ some ((remove_deleted env changes.deleted checked).0) =
        ground (arith, compared, ended) in
      let same = some-injective _ _ (sym first ∙ kept) in
      let leaves = check_rule-leaves env c1.tag c1 in
      let after = some-injective _ _ (sym second) in
      elim (remove_deleted-ends env changes.deleted checked) [
        | inl (e, removed) ↦ absurd (ground (arith, e, ended))
        | inr (e, restored) ↦ (
          ap (λ r. r.user_list) after
              ∙ ap (λ r. r.user_list) same
              ∙ restored.admission.keeps.user_list
              ∙ ul,
          ground (
            arith,
            restored.admission.admission email,
            found',
            t,
            ap (λ r. r.user_flows) same,
            ap (λ r. r.user_flows) after,
            leaves.1,
          ),
        )
      ]
