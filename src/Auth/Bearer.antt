-- ===== src/Auth/Bearer.antt =====
-- The token that the extractor of crates/walastack-auth/src/lib.rs finds in a header.
use walastack_rs.Base.{
  ℕ, ◌≡◌, refl, ap, ◌∙◌, Bool, true, false, none, some, List, [], ◌∷◌, ◌++◌, if◌then◌else◌, ==_refl,
  nat_keys, string_keys, All, or_else, lookup, ok, ◌>>=◌, ok_or,
}
use walastack_rs.Http.Extract.{Parts}
use walastack_rs.Auth.Extractor.{
  is_whitespace, trim_start, trim_end, strip_prefix, keep_end, upper_bearer, lower_bearer,
  not_empty, header_token, bearer_token, malformed_authorization_header,
}

abbrev pub IsSpace : ℕ → Type 0
IsSpace c = is_whitespace c ≡ true

abbrev pub IsBlack : ℕ → Type 0
IsBlack c = is_whitespace c ≡ false

trim_start-spaces : (ws t : List ℕ) → All IsSpace ws → trim_start (ws ++ t) ≡ trim_start t
unfolding trim_start
trim_start-spaces [] t h = refl
trim_start-spaces (c ∷ ws) t (here, h) = rw here (trim_start-spaces ws t h)

trim_start-black : (c : ℕ) (t : List ℕ) → IsBlack c → trim_start (c ∷ t) ≡ c ∷ t
unfolding trim_start
trim_start-black c t h = rw h refl

trim_end-spaces : (ws : List ℕ) → All IsSpace ws → trim_end ws ≡ []
unfolding trim_end
trim_end-spaces [] h = refl
trim_end-spaces (c ∷ ws) (here, h) = rw (trim_end-spaces ws h, here) refl

keep_end-black : (c : ℕ) (t : List ℕ) → IsBlack c → keep_end c t ≡ c ∷ t
unfolding trim_end
keep_end-black c [] h = rw h refl
keep_end-black c (d ∷ t) h = refl

trim_end-black : (t ws : List ℕ) → All IsBlack t → All IsSpace ws → trim_end (t ++ ws) ≡ t
unfolding trim_end
trim_end-black [] ws h spaces = trim_end-spaces ws spaces
trim_end-black (c ∷ t) ws (here, h) spaces =
    ap (keep_end c) (trim_end-black t ws h spaces) ∙ keep_end-black c t here

strip_prefix-append : (p t : List ℕ) → strip_prefix p (p ++ t) ≡ some t
unfolding strip_prefix
strip_prefix-append [] t = refl
strip_prefix-append (c ∷ p) t = rw (==_refl c) (strip_prefix-append p t)

either_prefix :
    (upper : Bool) (t : List ℕ)
    → let header = (if upper then upper_bearer else lower_bearer) ++ t in
      or_else (strip_prefix upper_bearer header) (strip_prefix lower_bearer header) ≡ some t
either_prefix true t = rw (strip_prefix-append upper_bearer t) refl
either_prefix false t =
    rw
      (
        (let p : strip_prefix upper_bearer (lower_bearer ++ t) ≡ none =
              unfold strip_prefix in refl in
            p),
        strip_prefix-append lower_bearer t,
      )
      refl

header_token_lem :
    (upper : Bool) (before after token : List ℕ) (c : ℕ)
    → All IsSpace before
    → All IsSpace after
    → All IsBlack (c ∷ token)
    → header_token
        ((if upper then upper_bearer else lower_bearer) ++ (before ++ ((c ∷ token) ++ after)))
      ≡ ok (c ∷ token)
unfolding header_token not_empty
header_token_lem upper before after token c spaces spaces' (black, h) =
    let trimmed : trim_end (trim_start (before ++ ((c ∷ token) ++ after))) ≡ c ∷ token =
      ap trim_end (
        trim_start-spaces before ((c ∷ token) ++ after) spaces
        ∙ trim_start-black c (token ++ after) black)
      ∙ trim_end-black (c ∷ token) after (black, h) spaces' in
    ap
      (λ o.
        ok_or o malformed_authorization_header >>= λ rest. not_empty (trim_end (trim_start rest)))
      (either_prefix upper (before ++ ((c ∷ token) ++ after)))
    ∙ ap not_empty trimmed

-- A header of `Bearer ` or `bearer `, then a token without white space and with any white space
-- around it, gives the token.
pub bearer_token-header :
    (parts : Parts) (upper : Bool) (before after token : List ℕ) (c : ℕ)
    → All IsSpace before
    → All IsSpace after
    → All IsBlack (c ∷ token)
    → lookup "authorization" parts.headers
      ≡ some (
          some
            ((if upper then upper_bearer else lower_bearer) ++ (before ++ ((c ∷ token) ++ after))))
    → bearer_token parts ≡ ok (c ∷ token)
unfolding bearer_token
bearer_token-header parts upper before after token c spaces spaces' black header =
    rw header (header_token_lem upper before after token c spaces spaces' black)
