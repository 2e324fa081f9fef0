-- ===== src/Accounts/Invitations/Redeemed.antt =====
-- What a redeemed invitation was, and what it leaves.
use nexuscloud.Base.{
  ℕ, ◌≤◌, ◌<◌, ◌≡◌, refl, sym, ◌∙◌, ap, subst, arith, Bool, true, false, ◌||◌, Option, none, some,
  [], ◌∷◌, ◌++◌, Str, find_first, any_of, if◌then◌else◌, not_eq_false, str_eq_refl,
}
use nexuscloud.Storage.Errors.{ok, err, failed, if_err_eq_ok, user_already_exists}
use nexuscloud.Storage.Table.{update_row}
use nexuscloud.Storage.Table.Members.{IsRow, IsRow-append, IsRow-any_of}
use nexuscloud.Storage.Action.Reads.{
  Leads, Reads-lift, Reads-pure, Reads-bind, Reads-reject_if, Leads-bind, Leads-then, Leads-pure,
  ok_injective,
}
use nexuscloud.Accounts.Model.{User, Invitation, is_usable, role_user}
use nexuscloud.Accounts.World.{Library, Tables, World}
use nexuscloud.Accounts.World.Reading.{tables_of, Reads-query, Reads-draw, Leads-execute}
use nexuscloud.Accounts.Users.{
  user_has_name, with_users, insert_user, insert_role, pair_is, create_user, create_user_row,
  assign_role, username_matches, CreateUserInput, new_user, or_default,
}
use nexuscloud.Accounts.Invitations.{
  RedeemInvitationInput, invitation_has_hash, invitation_has_id, or_invitation_not_found,
  get_invitation_by_token_hash, usable_invitation, accept, redeem, used, count_use, record_use,
  invited,
}

-- A user that `CreateUser` made, in the tables `t` before and `s` after it.
pub record Creates (input : CreateUserInput) (t : Tables) (u : User) (s : Tables) : Type 0 where
  pub named : u.username ≡ input.username
  pub well_named : username_matches input.username ≡ true
  pub new_name : any_of (user_has_name input.username) t.users ≡ false
  pub stored : IsRow u s.users
  pub given_role : any_of (pair_is u.id (or_default input.role role_user)) s.user_roles ≡ true
  pub others : s.invitations ≡ t.invitations

insert_user_parts :
    (t s : Tables) (u : User)
    → with_users t (insert_user u t.users) ≡ ok s
    → (any_of (user_has_name u.username) t.users ≡ false)
      × IsRow u s.users
      × (s.invitations ≡ t.invitations)
unfolding insert_user
insert_user_parts t s u h = split _ _ h
  where
    split :
        (c d : Bool)
        → with_users t (if c || d then err user_already_exists else ok (t.users ++ (u ∷ []))) ≡ ok s
        → (d ≡ false) × IsRow u s.users × (s.invitations ≡ t.invitations)
    split true d h = cc
    split false true h = cc
    split false false h =
        let e = ok_injective h in
        (
          refl,
          subst (λ (x : Tables). IsRow u x.users) e (IsRow-append t.users u),
          ap (λ (x : Tables). x.invitations) (sym e),
        )

pair_is_refl : (a b : Str) → pair_is a b (a, b) ≡ true
pair_is_refl a b = rw (str_eq_refl a, str_eq_refl b) refl

insert_role_parts :
    (user_id role_id : Str) (t s : Tables)
    → insert_role user_id role_id t ≡ ok s
    → (any_of (pair_is user_id role_id) s.user_roles ≡ true)
      × (s.invitations ≡ t.invitations)
      × (s.users ≡ t.users)
unfolding insert_role
insert_role_parts user_id role_id t s h = split _ _ refl h
  where
    split :
        (b c : Bool)
        → any_of (pair_is user_id role_id) t.user_roles ≡ b
        → (if b
            then ok t
            else if c
            then ok (record t { user_roles = t.user_roles ++ ((user_id, role_id) ∷ []) })
            else err failed)
          ≡ ok s
        → (any_of (pair_is user_id role_id) s.user_roles ≡ true)
          × (s.invitations ≡ t.invitations)
          × (s.users ≡ t.users)
    split true c e h =
        let k = sym (ok_injective h) in
        (
          ap (λ (x : Tables). any_of (pair_is user_id role_id) x.user_roles) k ∙ e,
          ap (λ (x : Tables). x.invitations) k,
          ap (λ (x : Tables). x.users) k,
        )
    split false true e h =
        let k = sym (ok_injective h) in
        (
          ap (λ (x : Tables). any_of (pair_is user_id role_id) x.user_roles) k
              ∙ IsRow-any_of (pair_is user_id role_id) _ (user_id, role_id)
                  (IsRow-append t.user_roles (user_id, role_id)) (pair_is_refl user_id role_id),
          ap (λ (x : Tables). x.invitations) k,
          ap (λ (x : Tables). x.users) k,
        )
    split false false e h = cc

module _ (lib : Library) (now : ℕ) where
  pub create_user-Leads :
      (input : CreateUserInput) (t : Tables)
      → Leads tables_of t (Creates input t) (create_user lib now input)
  unfolding create_user create_user_row assign_role
  create_user-Leads input t = Leads-bind _ _ (Reads-reject_if _ _) λ _ good.
      Leads-bind _ _ (Reads-draw _) λ id _. Leads-then _ _ (Leads-execute _) λ _ s inserted.
        Leads-then _ _ (Leads-execute _) λ _ s' given.
          let u = new_user id now input in
          let (free, row, kept) = insert_user_parts t s u inserted in
          let (role, kept', same) = insert_role_parts u.id _ s s' given in
          Leads-pure u (record {
            named = refl;
            well_named = not_eq_false _ good;
            new_name = free;
            stored = subst (λ us. IsRow u us) (sym same) row;
            given_role = role;
            others = kept' ∙ kept;
          })

-- The invitation with which `input` was redeemed at `now`, in the tables `t` before and `s` after.
pub record Redeems (lib : Library) (now : ℕ) (input : RedeemInvitationInput) (t : Tables) (u : User)
    (s : Tables) : Type 0 where
  pub invitation : Invitation
  pub found :
      find_first (invitation_has_hash (lib.hash_token input.token)) t.invitations ≡ some invitation
  pub not_revoked : invitation.revoked_at ≡ none
  pub not_expired : now ≤ invitation.expires_at
  pub uses_left : invitation.use_count < invitation.max_uses
  pub new_name : any_of (user_has_name input.username) t.users ≡ false
  pub named : u.username ≡ input.username
  pub stored : IsRow u s.users
  pub given_role :
      any_of (pair_is u.id (or_default invitation.role_id role_user)) s.user_roles ≡ true
  pub noted :
      s.invitations ≡ update_row (invitation_has_id invitation.id) (used now u.id) t.invitations

usable_parts :
    (now : ℕ) (i : Invitation) (a : Unit {0})
    → is_usable now i ≡ ok a
    → (i.revoked_at ≡ none) × (now ≤ i.expires_at) × (i.use_count < i.max_uses)
unfolding is_usable
usable_parts now i a h = ground arith

pub count_use_parts :
    (now : ℕ) (id user_id : Str) (t s : Tables)
    → count_use now id user_id t ≡ ok s
    → (s.invitations ≡ update_row (invitation_has_id id) (used now user_id) t.invitations)
      × (s.users ≡ t.users)
      × (s.user_roles ≡ t.user_roles)
unfolding count_use
count_use_parts now id user_id t s h =
    let k = sym (if_err_eq_ok _ _ s _ h).1 in
    (
      ap (λ (x : Tables). x.invitations) k,
      ap (λ (x : Tables). x.users) k,
      ap (λ (x : Tables). x.user_roles) k,
    )

or_invitation_not_found-eq_ok :
    (r : Option Invitation) (i : Invitation) → or_invitation_not_found r ≡ ok i → r ≡ some i
or_invitation_not_found-eq_ok none i h = cc
or_invitation_not_found-eq_ok (some j) i h = cc

-- A successful redemption used an invitation that is found by its token, not revoked, not expired and
-- not used up; it made a user of a new name with the invitation's role, and noted one more use.
pub redeem-Redeems :
    (lib : Library) (now : ℕ) (input : RedeemInvitationInput) (w : World) (u : User)
    → (redeem lib now input w).0 ≡ ok u
    → Redeems lib now input w.tables u (redeem lib now input w).1.tables
unfolding redeem usable_invitation accept get_invitation_by_token_hash record_use
redeem-Redeems lib now input w u h = redeemed.gives w refl u h
  where
    redeemed : Leads tables_of w.tables (Redeems lib now input w.tables) (redeem lib now input)
    redeemed =
        Leads-bind
          {P = λ i.
            (find_first (invitation_has_hash (lib.hash_token input.token)) w.tables.invitations
              ≡ some i)
            × (is_usable now i ≡ ok tt)}
          _ _
          (Reads-bind _ _ (Reads-query _) λ i at_hash.
            Reads-bind _ _ (Reads-lift _)
              λ _ usable. Reads-pure i (or_invitation_not_found-eq_ok _ i at_hash, usable))
          λ i (found, usable).
            let (revoked, expires, uses) = usable_parts now i tt usable in
            Leads-bind _ _ (Reads-draw _) λ hash _.
              Leads-then _ _ (create_user-Leads lib now (invited input hash i) w.tables) λ u s made.
                Leads-then _ _ (Leads-execute _) λ _ s' noted.
                  let (rows, users, roles) = count_use_parts now i.id u.id s s' noted in
                  Leads-pure u (record {
                    invitation = i;
                    found = found;
                    not_revoked = revoked;
                    not_expired = expires;
                    uses_left = uses;
                    new_name = made.new_name;
                    named = made.named;
                    stored = subst (λ us. IsRow u us) (sym users) made.stored;
                    given_role =
                        ap (λ rs. any_of (pair_is u.id (or_default i.role_id role_user)) rs) roles
                        ∙ made.given_role;
                    noted =
                        rows
                        ∙ ap (λ is. update_row (invitation_has_id i.id) (used now u.id) is)
                            made.others;
                  })
