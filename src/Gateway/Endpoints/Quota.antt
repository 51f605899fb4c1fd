-- ===== src/Gateway/Endpoints/Quota.antt =====
-- gateway/src/interfaces/manager.rs: the quota of live endpoints of a user.
use scg.Gateway.Endpoints.{
  register_locked, LiveEndpoint, LiveState, owned, detach_endpoint, register_or_replace, close,
}
use scg.Base.{
  ap, ◌^◌, ◌%◌, ◌∙◌, ℕ, true, false, ◌==◌, leb, ◌+◌, ◌≤◌, ◌<◌, ◌≡◌, ◌≢◌, ◌⊎◌, inl, inr, refl, sym,
  arith, none, some, List, [], ◌∷◌, if◌then◌else◌, Option-cases, Bool-cases, ℕ_discrete,
}
use scg.Base.AssocMap.{
  get, insert, remove, get-insert_same, get-insert_other, get-remove_same, get-remove_other,
}

module _ {Key : Type 0} where
  abbrev share : ℕ → LiveEndpoint Key → ℕ
  share uid ep = if ep.owner_uid == uid then 1 else 0

  owned-insert :
      (uid id : ℕ) (ep : LiveEndpoint Key) (m : List (ℕ × LiveEndpoint Key))
      → get ℕ_discrete id m ≡ none
      → owned uid (insert ℕ_discrete id ep m) ≡ share uid ep + owned uid m
  unfolding owned get insert
  owned-insert uid id ep [] h = refl
  owned-insert uid id ep ((j, e) ∷ m) h = ground (arith, owned-insert uid id ep m)

  owned-remove_le :
      (uid id : ℕ) (m : List (ℕ × LiveEndpoint Key))
      → owned uid (remove ℕ_discrete id m) ≤ owned uid m
  unfolding owned remove
  owned-remove_le uid id [] = omega arith
  owned-remove_le uid id ((j, e) ∷ m) = ground (arith, owned-remove_le uid id m)

  owned-remove :
      (uid id : ℕ) (ep : LiveEndpoint Key) (m : List (ℕ × LiveEndpoint Key))
      → get ℕ_discrete id m ≡ some ep
      → share uid ep + owned uid (remove ℕ_discrete id m) ≤ owned uid m
  unfolding owned get remove
  owned-remove uid id ep [] h = absurd (ground arith)
  owned-remove uid id ep ((j, e) ∷ m) h =
      ground (arith, owned-remove uid id ep m, owned-remove_le uid id m)

module _ {Key : Type 0} (eq : Discrete Key) (uid_of : Key → ℕ) where
  -- The keys and the endpoints name each other, the user of an endpoint is that of its key, and no user
  -- has more endpoints than the limit.
  pub record IsValid (limit : ℕ) (s : LiveState Key) : Type 0 where
    pub live :
        (k : Key) (i : ℕ)
        → get eq k s.by_owner ≡ some i
        → (e : LiveEndpoint Key) × (get ℕ_discrete i s.by_id ≡ some e) × (e.owner_key ≡ k)
    pub listed :
        (i : ℕ) (e : LiveEndpoint Key)
        → get ℕ_discrete i s.by_id ≡ some e
        → (get eq e.owner_key s.by_owner ≡ some i) × (e.owner_uid ≡ uid_of e.owner_key)
    pub within : (uid : ℕ) → owned uid s.by_id ≤ limit

  -- An endpoint in the new registry is the new one, or an old one of another key.
  abbrev Replaces :
      ℕ
      → Key
      → LiveEndpoint Key
      → List (ℕ × LiveEndpoint Key)
      → List (ℕ × LiveEndpoint Key)
      → Type 0
  Replaces id key ep m m' =
      (get ℕ_discrete id m' ≡ some ep)
      × ((i : ℕ) (e : LiveEndpoint Key)
          → get ℕ_discrete i m' ≡ some e
          → ((i ≡ id) × (e ≡ ep)) ⊎ ((get ℕ_discrete i m ≡ some e) × (e.owner_key ≢ key)))
      × ((i : ℕ) (e : LiveEndpoint Key)
          → get ℕ_discrete i m ≡ some e
          → e.owner_key ≢ key
          → get ℕ_discrete i m' ≡ some e)

  module _ (limit id : ℕ) (ep : LiveEndpoint Key) (s : LiveState Key) (valid : IsValid limit s)
      (new_id : get ℕ_discrete id s.by_id ≡ none) where
    insert-Replaces :
        get eq ep.owner_key s.by_owner ≡ none
        → Replaces id ep.owner_key ep s.by_id (insert ℕ_discrete id ep s.by_id)
    insert-Replaces vacant = (
      get-insert_same ℕ_discrete id ep s.by_id,
      λ i e h. elim (ℕ_discrete i id) [
        | yes same ↦ inl (same, ground (arith, h, same, get-insert_same ℕ_discrete id ep s.by_id))
        | no other ↦
            let old = sym (get-insert_other ℕ_discrete id i ep s.by_id other) ∙ h in
            inr (old, λ same. absurd (ground (arith, same, (valid.listed i e old).0, vacant)))
      ],
      λ i e h other.
          get-insert_other ℕ_discrete id i ep s.by_id
            (λ same. absurd (ground (arith, same, h, new_id)))
          ∙ h,
    )

    swap-Replaces :
        (old_id : ℕ)
        → get eq ep.owner_key s.by_owner ≡ some old_id
        → Replaces id ep.owner_key ep s.by_id
            (remove ℕ_discrete old_id (insert ℕ_discrete id ep s.by_id))
    swap-Replaces old_id held =
        let (e0, found, key0) = valid.live ep.owner_key old_id held in
        let apart : id ≢ old_id = λ same. absurd (ground (arith, same, found, new_id)) in
        let m = insert ℕ_discrete id ep s.by_id in
        (
          get-remove_other ℕ_discrete old_id id m apart ∙ get-insert_same ℕ_discrete id ep s.by_id,
          λ i e h. elim (ℕ_discrete i old_id) [
            | yes gone ↦ absurd (ground (arith, h, gone, get-remove_same ℕ_discrete old_id m))
            | no kept ↦
                let h' = sym (get-remove_other ℕ_discrete old_id i m kept) ∙ h in
                elim (ℕ_discrete i id) [
                  | yes same ↦
                      inl (same, ground (arith, h', same, get-insert_same ℕ_discrete id ep s.by_id))
                  | no other ↦
                      let old = sym (get-insert_other ℕ_discrete id i ep s.by_id other) ∙ h' in
                      inr (old, λ same. kept (ground (arith, same, (valid.listed i e old).0, held)))
                ]
          ],
          λ i e h other.
              get-remove_other ℕ_discrete old_id i m
                (λ same. other (ground (arith, same, h, found, key0)))
              ∙ get-insert_other ℕ_discrete id i ep s.by_id
                  (λ same. absurd (ground (arith, same, h, new_id)))
              ∙ h,
        )

    replaced-IsValid :
        (m' : List (ℕ × LiveEndpoint Key)) (stopped : List (LiveEndpoint Key))
        → ep.owner_uid ≡ uid_of ep.owner_key
        → Replaces id ep.owner_key ep s.by_id m'
        → ((uid : ℕ) → owned uid m' ≤ limit)
        → IsValid limit (record s {
          by_id = m';
          by_owner = insert eq ep.owner_key id s.by_owner;
          stopped = stopped;
        })
    replaced-IsValid m' stopped user (placed, only, kept) within = record {
      live = λ k i h. elim (eq k ep.owner_key) [
        | yes same ↦ (
          ep,
          ground (arith, h, same, placed, get-insert_same eq ep.owner_key id s.by_owner),
          sym same,
        )
        | no other ↦
            let (e, found, key) =
              valid.live k i (sym (get-insert_other eq ep.owner_key k id s.by_owner other) ∙ h) in
            (e, kept i e found (λ same. other (sym key ∙ same)), key)
      ];
      listed = λ i e h. elim (only i e h) [
        | inl (same_id, same_ep) ↦ (
          ground (arith, same_id, same_ep, get-insert_same eq ep.owner_key id s.by_owner),
          ground (arith, same_ep, user),
        )
        | inr (found, other) ↦ (
          get-insert_other eq ep.owner_key e.owner_key id s.by_owner other
              ∙ (valid.listed i e found).0,
          (valid.listed i e found).1,
        )
      ];
      within = within;
    }

    room_lem :
        limit < 4294967296
        → leb limit (owned ep.owner_uid s.by_id % 2 ^ 32) ≡ false
        → (uid : ℕ) → owned uid (insert ℕ_discrete id ep s.by_id) ≤ limit
    room_lem small room uid = elim (Bool-cases (ep.owner_uid == uid)) [
      | inl same ↦
          ground (arith, owned-insert uid id ep s.by_id new_id, valid.within uid, small, room, same)
      | inr other ↦ ground (arith, owned-insert uid id ep s.by_id new_id, valid.within uid, other)
    ]

    swap_lem :
        (old_id : ℕ)
        → get eq ep.owner_key s.by_owner ≡ some old_id
        → ep.owner_uid ≡ uid_of ep.owner_key
        → (uid : ℕ) → owned uid (remove ℕ_discrete old_id (insert ℕ_discrete id ep s.by_id)) ≤ limit
    swap_lem old_id held user uid =
        let (e0, found, key0) = valid.live ep.owner_key old_id held in
        let apart : old_id ≢ id = λ same. absurd (ground (arith, same, found, new_id)) in
        let there = get-insert_other ℕ_discrete id old_id ep s.by_id apart ∙ found in
        let user0 : e0.owner_uid ≡ ep.owner_uid =
          (valid.listed old_id e0 found).1 ∙ ap uid_of key0 ∙ sym user in
        ground (
          arith,
          owned-remove uid old_id e0 (insert ℕ_discrete id ep s.by_id) there,
          owned-insert uid id ep s.by_id new_id,
          valid.within uid,
          user0,
        )

    refused_state :
        1 ≤ limit
        → get eq ep.owner_key s.by_owner ≡ none
        → leb limit (owned ep.owner_uid s.by_id % 2 ^ 32) ≡ true
        → (register_or_replace eq (λ t. t) limit id ep.owner_key ep s).0
          ≡ record s { stopped = ep ∷ s.stopped }
    unfolding register_or_replace register_locked detach_endpoint
    refused_state positive vacant refused = ground arith

    room_state :
        get eq ep.owner_key s.by_owner ≡ none
        → leb limit (owned ep.owner_uid s.by_id % 2 ^ 32) ≡ false
        → (register_or_replace eq (λ t. t) limit id ep.owner_key ep s).0 ≡ record s {
          by_id = insert ℕ_discrete id ep s.by_id;
          by_owner = insert eq ep.owner_key id s.by_owner;
        }
    unfolding register_or_replace register_locked detach_endpoint
    room_state vacant room = ground arith

    held_state :
        (old_id : ℕ) (e : LiveEndpoint Key)
        → get eq ep.owner_key s.by_owner ≡ some old_id
        → get ℕ_discrete old_id (insert ℕ_discrete id ep s.by_id) ≡ some e
        → (register_or_replace eq (λ t. t) limit id ep.owner_key ep s).0 ≡ record s {
          by_id = remove ℕ_discrete old_id (insert ℕ_discrete id ep s.by_id);
          by_owner = insert eq ep.owner_key id s.by_owner;
          stopped = e ∷ s.stopped;
        }
    unfolding register_or_replace register_locked detach_endpoint
    held_state old_id e held there = ground arith

    registered-IsValid :
        1 ≤ limit
        → limit < 4294967296
        → ep.owner_uid ≡ uid_of ep.owner_key
        → IsValid limit (register_or_replace eq (λ t. t) limit id ep.owner_key ep s).0
    unfolding register_or_replace register_locked detach_endpoint
    registered-IsValid positive small user = elim (Option-cases (get eq ep.owner_key s.by_owner)) [
      | inl vacant ↦ elim (Bool-cases (leb limit (owned ep.owner_uid s.by_id % 2 ^ 32))) [
        | inl refused ↦
            rw (refused_state positive vacant refused)
              (record { live = valid.live; listed = valid.listed; within = valid.within })
        | inr room ↦ rw (room_state vacant room) (
            replaced-IsValid (insert ℕ_discrete id ep s.by_id) s.stopped user
              (insert-Replaces vacant) (room_lem small room))
      ]
      | inr (old_id, held) ↦
          let (e0, found, key0) = valid.live ep.owner_key old_id held in
          let there =
            get-insert_other ℕ_discrete id old_id ep s.by_id
              (λ same. absurd (ground (arith, same, found, new_id)))
            ∙ found in
          rw (held_state old_id e0 held there) (
            replaced-IsValid (remove ℕ_discrete old_id (insert ℕ_discrete id ep s.by_id))
              (e0 ∷ s.stopped) user (swap-Replaces old_id held) (swap_lem old_id held user))
    ]

    locked_lem :
        (uid : ℕ) → owned uid (register_locked eq limit id ep.owner_key ep s).0.by_id ≤ limit + 1
    unfolding register_locked
    locked_lem uid = ground (arith, owned-insert uid id ep s.by_id new_id, valid.within uid)

    pub register_or_replace-IsValid :
        1 ≤ limit
        → limit < 4294967296
        → ep.owner_uid ≡ uid_of ep.owner_key
        → IsValid limit (register_or_replace eq (λ t. t) limit id ep.owner_key ep s).0
          × ((uid : ℕ)
              → owned uid (register_locked eq limit id ep.owner_key ep s).0.by_id ≤ limit + 1)
    register_or_replace-IsValid positive small user =
        (registered-IsValid positive small user, locked_lem)

  module _ (limit caller id : ℕ) (s : LiveState Key) (valid : IsValid limit s) where
    -- The registry without an endpoint and without its key.
    closed_IsValid :
        (ep : LiveEndpoint Key)
        → get ℕ_discrete id s.by_id ≡ some ep
        → IsValid limit (record s {
          by_id = remove ℕ_discrete id s.by_id;
          by_owner = remove eq ep.owner_key s.by_owner;
          stopped = ep ∷ s.stopped;
        })
    closed_IsValid ep there = record {
      live = λ k i h. elim (eq k ep.owner_key) [
        | yes same ↦ absurd (ground (arith, h, same, get-remove_same eq ep.owner_key s.by_owner))
        | no other ↦
            let (e, found, key) =
              valid.live k i (sym (get-remove_other eq ep.owner_key k s.by_owner other) ∙ h) in
            (
              e,
              get-remove_other ℕ_discrete id i s.by_id
                    (λ same. other (ground (arith, same, found, there, key)))
                  ∙ found,
              key,
            )
      ];
      listed = λ i e h. elim (ℕ_discrete i id) [
        | yes same ↦ absurd (ground (arith, h, same, get-remove_same ℕ_discrete id s.by_id))
        | no other ↦
            let found = sym (get-remove_other ℕ_discrete id i s.by_id other) ∙ h in
            let (key, user) = valid.listed i e found in
            (
              get-remove_other eq ep.owner_key e.owner_key s.by_owner
                    (λ same. other (ground (arith, same, key, (valid.listed id ep there).0)))
                  ∙ key,
              user,
            )
      ];
      within = λ uid. ground (arith, owned-remove_le uid id s.by_id, valid.within uid);
    }

    missing_state : get ℕ_discrete id s.by_id ≡ none → (close eq caller id s).0 ≡ s
    unfolding close
    missing_state gone = ground arith

    foreign_state :
        (ep : LiveEndpoint Key)
        → get ℕ_discrete id s.by_id ≡ some ep
        → (ep.owner_uid == caller) ≡ false
        → (close eq caller id s).0 ≡ s
    unfolding close
    foreign_state ep there foreign = ground arith

    closed_state :
        (ep : LiveEndpoint Key)
        → get ℕ_discrete id s.by_id ≡ some ep
        → (ep.owner_uid == caller) ≡ true
        → (close eq caller id s).0 ≡ record s {
          by_id = remove ℕ_discrete id s.by_id;
          by_owner = remove eq ep.owner_key s.by_owner;
          stopped = ep ∷ s.stopped;
        }
    unfolding close
    closed_state ep there own = ground arith

    -- A close keeps every user within the limit and the registry consistent, and it leaves every endpoint
    -- of another user as it was.
    pub close-IsValid :
        IsValid limit (close eq caller id s).0
        × ((i : ℕ) (e : LiveEndpoint Key)
            → get ℕ_discrete i s.by_id ≡ some e
            → e.owner_uid ≢ caller
            → get ℕ_discrete i (close eq caller id s).0.by_id ≡ some e)
    close-IsValid = elim (Option-cases (get ℕ_discrete id s.by_id)) [
      | inl gone ↦ rw (missing_state gone) (valid, λ i e found other. found)
      | inr (ep, there) ↦ elim (Bool-cases (ep.owner_uid == caller)) [
        | inr foreign ↦ rw (foreign_state ep there foreign) (valid, λ i e found other. found)
        | inl own ↦ rw (closed_state ep there own) (
          closed_IsValid ep there,
          λ i e found other.
              get-remove_other ℕ_discrete id i s.by_id
                (λ same. other (ground (arith, same, found, there, own)))
              ∙ found,
        )
      ]
    ]

  pub empty-IsValid :
      (limit : ℕ) → IsValid limit (record { next_id = 1; by_id = []; by_owner = []; stopped = [] })
  unfolding owned get
  empty-IsValid limit = record {
    live = λ k i h. absurd (ground (arith, h));
    listed = λ i e h. absurd (ground (arith, h));
    within = λ uid. omega arith;
  }
