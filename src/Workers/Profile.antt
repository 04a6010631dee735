-- ===== src/Workers/Profile.antt =====
-- `StyleRevision`, `RenderMode`, `Scale` and `WorkerProfile` of crates/biei-core/src/types.rs.
use Prim.Native.String.{String}
use biei.Prelude.{
  string_Eq, nat_Eq, ℕ, ◌≡◌, refl, ap, ◌↔◌, Bool, true, false, ◌&&◌, Option, none, some, Eq, eqb,
  eqb→eq, eqb_refl, ◌==◌,
}

pub record StyleRevision : Type 0 where
  pub id : String
  pub version : ℕ

pub data RenderMode : Type 0 where
  static_image tile_image : RenderMode

pub data Scale : Type 0 where
  x1 x2 : Scale

pub record WorkerProfile : Type 0 where
  pub style : StyleRevision
  pub render_mode : RenderMode
  pub scale : Scale

abbrev pub mode_eqb : RenderMode → RenderMode → Bool
mode_eqb static_image static_image = true
mode_eqb tile_image tile_image = true
mode_eqb _ _ = false

pub mode_eqb_iff : (a b : RenderMode) → (mode_eqb a b ≡ true) ↔ (a ≡ b)
mode_eqb_iff static_image static_image = (λ _. refl, λ _. refl)
mode_eqb_iff static_image tile_image = (λ h. absurd (cc), λ h. absurd (cc))
mode_eqb_iff tile_image static_image = (λ h. absurd (cc), λ h. absurd (cc))
mode_eqb_iff tile_image tile_image = (λ _. refl, λ _. refl)

abbrev pub scale_eqb : Scale → Scale → Bool
scale_eqb x1 x1 = true
scale_eqb x2 x2 = true
scale_eqb _ _ = false

pub scale_eqb_iff : (a b : Scale) → (scale_eqb a b ≡ true) ↔ (a ≡ b)
scale_eqb_iff x1 x1 = (λ _. refl, λ _. refl)
scale_eqb_iff x1 x2 = (λ h. absurd (cc), λ h. absurd (cc))
scale_eqb_iff x2 x1 = (λ h. absurd (cc), λ h. absurd (cc))
scale_eqb_iff x2 x2 = (λ _. refl, λ _. refl)

-- The derived `PartialEq`: field by field.
abbrev pub profile_eqb : WorkerProfile → WorkerProfile → Bool
profile_eqb a b =
    eqb a.style.id b.style.id
    && (a.style.version == b.style.version
        && (mode_eqb a.render_mode b.render_mode && scale_eqb a.scale b.scale))

and-true : (a b : Bool) → (a && b) ≡ true → (a ≡ true) × (b ≡ true)
and-true true b h = (refl, h)
and-true false b h = absurd (cc)

pub profile_eqb_iff : (a b : WorkerProfile) → (profile_eqb a b ≡ true) ↔ (a ≡ b)
profile_eqb_iff a b = (
  λ h.
      let (i, h1) = and-true _ _ h in
      let (v, h2) = and-true _ _ h1 in
      let (m, s) = and-true _ _ h2 in
      let ids : a.style.id ≡ b.style.id = eqb→eq a.style.id b.style.id i in
      let versions : a.style.version ≡ b.style.version = eqb→eq a.style.version b.style.version v in
      let modes : a.render_mode ≡ b.render_mode = (mode_eqb_iff a.render_mode b.render_mode).0 m in
      let scales : a.scale ≡ b.scale = (scale_eqb_iff a.scale b.scale).0 s in cc,
  λ e. rw e (
      rw
        (
          eqb_refl b.style.id,
          eqb_refl b.style.version,
          (mode_eqb_iff _ b.render_mode).1 refl,
          (scale_eqb_iff _ b.scale).1 refl,
        )
        refl),
)

instance abbrev pub profile_Eq : Eq WorkerProfile
profile_Eq = record { same = profile_eqb; same_iff = profile_eqb_iff }

abbrev pub option_eqb {ℓ} : {A : Type ℓ} ⦃e : Eq A⦄ → Option A → Option A → Bool
option_eqb none none = true
option_eqb (some a) (some b) = eqb a b
option_eqb _ _ = false

pub option_eqb_iff {ℓ} :
    {A : Type ℓ} ⦃e : Eq A⦄ (a b : Option A) → (option_eqb a b ≡ true) ↔ (a ≡ b)
option_eqb_iff none none = (λ _. refl, λ _. refl)
option_eqb_iff none (some b) = (λ h. absurd (cc), λ h. absurd (cc))
option_eqb_iff (some a) none = (λ h. absurd (cc), λ h. absurd (cc))
option_eqb_iff ⦃e⦄ (some a) (some b) =
    (λ h. ap (λ t. some t) (eqb→eq a b h), λ h. let same : a ≡ b = cc in rw same (eqb_refl b))

instance abbrev pub option_Eq {ℓ} : {A : Type ℓ} ⦃e : Eq A⦄ → Eq (Option A)
option_Eq ⦃e⦄ = record { same = option_eqb; same_iff = option_eqb_iff }
