-- ===== src/Traffic/Totals.antt =====
-- A report holds what was drained: one entry for each user, with the sum of the user's traffic.
use oldxr.Base.{
  ℕ, zero, suc, ◌+◌, ◌%◌, ◌^◌, ◌<◌, ◌≡◌, refl, sym, ◌∙◌, ◌⊎◌, none, some, List, [], ◌∷◌, ◌++◌, ite,
  arith, length, set, Option-cases, inl, inr,
}
use oldxr.Base.Int.{ℤ, ℤ_discrete}
use oldxr.Base.Dict.{Dict, load, store, load-store}
use oldxr.Api.{UserInfo, UserTraffic}
use oldxr.Traffic.{append_user_traffic}
use oldxr.Traffic.Entries.{
  position, field_of, position-append, position-entry, position-set, field_of-append,
  field_of_absent, field_of_present, field_of-set, IsOncePerUser, append-IsOncePerUser,
  set-IsOncePerUser,
}

zero_or_more : (n : ℕ) → (n ≡ 0) ⊎ (0 < n)
zero_or_more zero = inl refl
zero_or_more (suc n) = inr (omega arith)

abbrev pub upload_of : ℤ → List UserTraffic → ℕ
upload_of = field_of (λ e. e.upload)

abbrev pub download_of : ℤ → List UserTraffic → ℕ
download_of = field_of (λ e. e.download)

pub record IsReport (traffic : List UserTraffic) (index : Dict ℤ ℕ) : Type 0 where
  pub located : (uid : ℤ) → load ℤ_discrete uid index ≡ position uid traffic
  pub once : IsOncePerUser traffic
  pub upload-lt : (uid : ℤ) → upload_of uid traffic < 2 ^ 64
  pub download-lt : (uid : ℤ) → download_of uid traffic < 2 ^ 64

-- A report that has grown by one sample.
pub record Grown (user : UserInfo) (up down : ℕ) (t : List UserTraffic) (ix : Dict ℤ ℕ)
    : Type 0 where
  pub t' : List UserTraffic
  pub ix' : Dict ℤ ℕ
  pub appended : append_user_traffic user up down (t, ix) ≡ some (t', ix')
  pub report : IsReport t' ix'
  pub uploads :
      (uid : ℤ) → upload_of uid t' ≡ (upload_of uid t + ite (ℤ_discrete user.uid uid) up 0) % 2 ^ 64
  pub downloads :
      (uid : ℤ)
      → download_of uid t' ≡ (download_of uid t + ite (ℤ_discrete user.uid uid) down 0) % 2 ^ 64

module _ (user : UserInfo) (up down : ℕ) (t : List UserTraffic) (ix : Dict ℤ ℕ) where
  append_nothing : IsReport t ix → up ≡ 0 → down ≡ 0 → Grown user up down t ix
  unfolding append_user_traffic
  append_nothing r u d = record {
    t' = t;
    ix' = ix;
    appended = ground arith;
    report = r;
    uploads = λ uid. ground (arith, r.upload-lt uid);
    downloads = λ uid. ground (arith, r.download-lt uid);
  }

  append_first :
      IsReport t ix
      → up < 2 ^ 63
      → down < 2 ^ 63
      → 0 < up + down
      → position user.uid t ≡ none
      → Grown user up down t ix
  unfolding append_user_traffic
  append_first r u d some_traffic absent =
      let e : UserTraffic = record {
        uid = user.uid;
        email = user.email;
        upload = up;
        download = down;
      } in
      record {
        t' = t ++ e ∷ [];
        ix' = store ℤ_discrete user.uid (length t) ix;
        appended = ground (arith, r.located user.uid);
        report = record {
          located = λ uid. ground (
            arith,
            load-store ℤ_discrete user.uid uid (length t) ix,
            position-append uid t e,
            r.located uid,
          );
          once = append-IsOncePerUser t e r.once absent;
          upload-lt =
              λ uid. ground (arith, field_of-append (λ x. x.upload) uid t e, r.upload-lt uid);
          download-lt =
              λ uid. ground (arith, field_of-append (λ x. x.download) uid t e, r.download-lt uid);
        };
        uploads = λ uid. ground (
          arith,
          field_of-append (λ x. x.upload) uid t e,
          field_of_absent (λ x. x.upload) uid t,
          r.upload-lt uid,
        );
        downloads = λ uid. ground (
          arith,
          field_of-append (λ x. x.download) uid t e,
          field_of_absent (λ x. x.download) uid t,
          r.download-lt uid,
        );
      }

  append_again :
      (p : ℕ)
      → IsReport t ix
      → up < 2 ^ 63
      → down < 2 ^ 63
      → 0 < up + down
      → position user.uid t ≡ some p
      → Grown user up down t ix
  unfolding append_user_traffic
  append_again p r u d some_traffic present =
      let (e, at, mine) = position-entry user.uid t p present in
      let e' : UserTraffic = record e {
        upload = (e.upload + up) % 2 ^ 64;
        download = (e.download + down) % 2 ^ 64;
      } in
      record {
        t' = set t p e';
        ix' = ix;
        appended = ground (arith, r.located user.uid);
        report = record {
          located = λ uid. r.located uid ∙ sym (position-set uid t p e e' at refl);
          once = set-IsOncePerUser t p e e' at refl r.once;
          upload-lt = λ uid. ground (
            arith,
            field_of-set (λ x. x.upload) user.uid uid t p e' present mine,
            r.upload-lt uid,
          );
          download-lt = λ uid. ground (
            arith,
            field_of-set (λ x. x.download) user.uid uid t p e' present mine,
            r.download-lt uid,
          );
        };
        uploads = λ uid. ground (
          arith,
          field_of-set (λ x. x.upload) user.uid uid t p e' present mine,
          field_of_present (λ x. x.upload) user.uid t p e present at,
          r.upload-lt uid,
        );
        downloads = λ uid. ground (
          arith,
          field_of-set (λ x. x.download) user.uid uid t p e' present mine,
          field_of_present (λ x. x.download) user.uid t p e present at,
          r.download-lt uid,
        );
      }

  pub append_user_traffic-Grown :
      IsReport t ix → up < 2 ^ 63 → down < 2 ^ 63 → Grown user up down t ix
  append_user_traffic-Grown r u d = elim (zero_or_more (up + down)) [
    | inl nothing ↦ append_nothing r (omega arith) (omega arith)
    | inr traffic ↦ (elim (Option-cases (position user.uid t)) [
      | inl absent ↦ append_first r u d traffic absent
      | inr (p, present) ↦ append_again p r u d traffic present
    ])
  ]
