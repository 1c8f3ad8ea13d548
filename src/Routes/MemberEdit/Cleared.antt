-- ===== src/Routes/MemberEdit/Cleared.antt =====
-- What the removals of a member edit leave of the member, field by field.
use company_backend.Prelude.{
  ◌≡◌, refl, ap, ◌∙◌, Bool, true, false, ◌||◌, none, List, [], ◌∷◌, if◌then◌else◌,
}
use company_backend.Models.{Member}
use company_backend.Routes.Checks.{FieldsMember, removes}
use company_backend.Routes.MemberEdit.{remove_field, remove_fields}

-- A field that is removed is reset, to true for the two that mute a member; the others stay, and
-- neither the time of joining nor the voice channel is a field of the row.
abbrev pub cleared : List FieldsMember → Member → Member
cleared fields member = record member {
  nickname = if removes fields FieldsMember.nickname then none else member.nickname;
  avatar = if removes fields FieldsMember.avatar then none else member.avatar;
  roles = if removes fields FieldsMember.roles then [] else member.roles;
  timeout = if removes fields FieldsMember.timeout then none else member.timeout;
  can_publish = removes fields FieldsMember.can_publish || member.can_publish;
  can_receive = removes fields FieldsMember.can_receive || member.can_receive;
}

same_if {ℓ} : {A : Type ℓ} (b : Bool) (a : A) → (if b then a else a) ≡ a
same_if true a = refl
same_if false a = refl

or_true : (b : Bool) → (b || true) ≡ true
or_true true = refl
or_true false = refl

cleared_next :
    (field : FieldsMember) (fields : List FieldsMember) (member : Member)
    → cleared fields (remove_field field member) ≡ cleared (field ∷ fields) member
unfolding remove_field
cleared_next FieldsMember.nickname fields member =
    ap (λ x. record (cleared fields member) { nickname = x })
      (same_if (removes fields FieldsMember.nickname) none)
cleared_next FieldsMember.avatar fields member =
    ap (λ x. record (cleared fields member) { avatar = x })
      (same_if (removes fields FieldsMember.avatar) none)
cleared_next FieldsMember.roles fields member =
    ap (λ x. record (cleared fields member) { roles = x })
      (same_if (removes fields FieldsMember.roles) [])
cleared_next FieldsMember.timeout fields member =
    ap (λ x. record (cleared fields member) { timeout = x })
      (same_if (removes fields FieldsMember.timeout) none)
cleared_next FieldsMember.can_receive fields member =
    ap (λ x. record (cleared fields member) { can_receive = x })
      (or_true (removes fields FieldsMember.can_receive))
cleared_next FieldsMember.can_publish fields member =
    ap (λ x. record (cleared fields member) { can_publish = x })
      (or_true (removes fields FieldsMember.can_publish))
cleared_next FieldsMember.joined_at fields member = refl
cleared_next FieldsMember.voice_channel fields member = refl

pub remove_fields-cleared :
    (fields : List FieldsMember) (member : Member)
    → remove_fields fields member ≡ cleared fields member
unfolding remove_fields
remove_fields-cleared [] member = refl
remove_fields-cleared (field ∷ fields) member =
    remove_fields-cleared fields (remove_field field member) ∙ cleared_next field fields member
