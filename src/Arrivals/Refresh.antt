-- ===== src/Arrivals/Refresh.antt =====
-- `plex_section_refresh` of scripts/arrival_notifier.py: the URLs that it asks for.
use Prim.Native.Char.{code}
use Prim.Native.String.append
use mathlib.Core.Bool.{false≢true}
use mathlib.Core.List.{append-nil}
use rawrz.Prelude.{
  ℕ, ◌<>◌, ◌≡◌, refl, sym, ap, ◌∙◌, inl, inr, Bool, true, false, List, [], ◌∷◌, ◌++◌, String,
  if◌then◌else◌, ◌==◌, nat_eq, string_eq, Bool-cases, arith,
}
use rawrz.Prelude.Result.{Result}
use rawrz.Exec.{done, ◌>>=◌, pure}
use rawrz.Json.Words.{codes}
use rawrz.Arrivals.{Host, World}
use rawrz.Arrivals.Message.{last_is, ends_with_slash, lstrip_slash, url_of}
use rawrz.Arrivals.Notifier.{ask, after_sections, plex_section_refresh}

codes-append : (s t : String) → codes (s <> t) ≡ codes s ++ codes t
codes-append String.[] t = ap codes (append.nil t)
codes-append (String.◌∷◌ c s) t =
    ap codes (append.cons c s t) ∙ ap (λ l. code c ∷ l) (codes-append s t)

last_is-append : (c : ℕ) (s : List ℕ) → last_is c (s ++ (c ∷ [])) ≡ true
unfolding nat_eq
last_is-append c [] = ground arith
last_is-append c (d ∷ []) = ground arith
last_is-append c (d ∷ e ∷ s) = last_is-append c (e ∷ s)

ended :
    (b : Bool) (url : String)
    → last_is b'/' (codes url) ≡ b
    → last_is b'/' (codes (url <> ((if b then "" else "/") <> ""))) ≡ true
ended true url h = rw (codes-append url "", append-nil (codes url)) h
ended false url h = rw (codes-append url "/") (last_is-append b'/' (codes url))

-- A URL that is asked for with no path after it ends with a slash.
url_of-slash : (url : String) → ends_with_slash (url_of url "") ≡ true
unfolding url_of ends_with_slash lstrip_slash
url_of-slash url = ended (last_is b'/' (codes url)) url refl

last_is-after : (c d : ℕ) (s t : List ℕ) → last_is c (s ++ (d ∷ t)) ≡ last_is c (d ∷ t)
last_is-after c d [] t = refl
last_is-after c d (e ∷ []) t = refl
last_is-after c d (e ∷ f ∷ s) t = last_is-after c d (f ∷ s) t

-- The URL passes the token, and nothing after it.
abbrev pub Carries : String → String → Type 0
Carries token url = (start : String) × (url ≡ start <> ("X-Plex-Token=" <> token))

name_ends :
    (ts : List ℕ) → last_is b'/' ts ≡ false → last_is b'/' (codes "X-Plex-Token=" ++ ts) ≡ false
unfolding nat_eq
name_ends [] h = refl
name_ends (d ∷ ts) h = last_is-after b'/' d (codes "X-Plex-Token=") ts ∙ h

slash-after :
    (start token : String)
    → ends_with_slash token ≡ false
    → ends_with_slash (start <> ("X-Plex-Token=" <> token)) ≡ false
unfolding ends_with_slash
slash-after start token h =
    rw (codes-append start ("X-Plex-Token=" <> token), codes-append "X-Plex-Token=" token)
      (last_is-after b'/' b'X' (codes start) (codes "-Plex-Token=" ++ codes token)
        ∙ name_ends (codes token) h)

other_token :
    (token url : String)
    → ends_with_slash token ≡ false
    → ends_with_slash url ≡ true
    → ¬ Carries token url
other_token token url h e (start, k) =
    false≢true (sym (slash-after start token h) ∙ ap ends_with_slash (sym k) ∙ e)

-- If Plex answers with an error where a URL does not pass the token as it is, and the token does not end
-- with a slash, then no refresh is ever made, for any base, token and sections.
pub plex_section_refresh_fails :
    (H : Host) (base token wanted : String)
    → ((url : String) (t : H.Net)
        → ¬ Carries token url
        → (e : String) × ((H.get url t).0 ≡ Result.err e))
    → ends_with_slash token ≡ false
    → (w : World H) → (plex_section_refresh H base token wanted w).0 ≡ done false
unfolding plex_section_refresh after_sections ask ◌>>=◌ pure
plex_section_refresh_fails H base token wanted rejects plain w = elim (Bool-cases (token == "")) [
  | inl empty ↦ rw empty refl
  | inr filled ↦
      let url = url_of (base <> ("/library/sections?X-Plex-Token=" <> token)) "" in
      rw (filled, (rejects url w.net (other_token token url plain (url_of-slash _))).1) refl
]
