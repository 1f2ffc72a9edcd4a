-- ===== src/Transport/Headers.antt =====
-- The headers that `doOnce` sends: who the request says that it is.
use spooled_sdk_go.Common.{
  ◌≡◌, refl, ◌++◌, true, false, not, ◌&&◌, Text, List, [], ◌∷◌, lit, is_empty, text_eq,
  text_eq_refl, eq_of_text_eq, text_eq_iff, arith, if◌then◌else◌, All, Bool-cases, inl, inr, ◌∙◌,
}
use spooled_sdk_go.Runtime.{Runtime}
use spooled_sdk_go.Transport.{Transport, Request}
use spooled_sdk_go.Transport.Once.{
  put_header, get_header, set_header, set_headers, set_auth, request_headers, has_body,
}

text_eq_ne : (j k l : Text) → text_eq j k ≡ true → text_eq j l ≡ text_eq k l
text_eq_ne j k l h = rw (eq_of_text_eq j k h)

-- A header that is set reads back, and the others are as before.
pub get_header-put_header :
    (j k v : Text) (hs : List (Text × Text))
    → get_header j (put_header k v hs) ≡ (if text_eq k j then v else get_header j hs)
unfolding get_header put_header
get_header-put_header j k v [] = refl
get_header-put_header j k v ((i, w) ∷ hs) = elim (Bool-cases (text_eq i k)) [
  | inl same ↦ rw same (hit i k same)
  | inr other ↦ rw other (miss i k other (get_header-put_header j k v hs))
]
  where
    hit :
        (i k : Text)
        → text_eq i k ≡ true
        → (if text_eq k j then v else get_header j hs)
          ≡ (if text_eq k j then v else (if text_eq i j then w else get_header j hs))
    hit i k same = ground (arith, text_eq_ne i k j same)

    miss :
        (i k : Text)
        → text_eq i k ≡ false
        → get_header j (put_header k v hs) ≡ (if text_eq k j then v else get_header j hs)
        → (if text_eq i j then w else get_header j (put_header k v hs))
          ≡ (if text_eq k j then v else (if text_eq i j then w else get_header j hs))
    miss i k other ih = ground (arith, text_eq_iff k j, text_eq_iff i j, text_eq_iff i k)

empty_header : get_header (lit "Authorization") [] ≡ []
unfolding get_header
empty_header = refl

abbrev name : Text
name = lit "Authorization"

names_differ :
    (text_eq (lit "User-Agent") name ≡ false)
    × (text_eq (lit "Accept") name ≡ false)
    × (text_eq (lit "Content-Type") name ≡ false)
    × (text_eq (lit "X-Admin-Key") name ≡ false)
unfolding lit text_eq
names_differ = (refl, refl, refl, refl)

module _ (rt : Runtime) where
  open rt use {canonical, floats}
  open floats use {Float}

  -- None of the headers goes by this canonical name.
  abbrev pub Lacks : Text → List (Text × Text) → Type 0
  Lacks k = All (λ h. text_eq (canonical h.0) k ≡ false)

  get_header-set_headers :
      (k : Text) (kvs hs : List (Text × Text))
      → Lacks k kvs
      → get_header k (set_headers rt kvs hs) ≡ get_header k hs
  unfolding set_headers set_header
  get_header-set_headers k [] hs n = refl
  get_header-set_headers k ((j, v) ∷ kvs) hs (n, ns) =
      get_header-set_headers k kvs (put_header (canonical j) v hs) ns
      ∙ rw (get_header-put_header k (canonical j) v hs, n)

  get_header-set_header_ne :
      (k v : Text) (hs : List (Text × Text))
      → canonical k ≡ k
      → text_eq k name ≡ false
      → get_header name (set_header rt k v hs) ≡ get_header name hs
  unfolding set_header
  get_header-set_header_ne k v hs c n = rw c (get_header-put_header name k v hs ∙ rw n)

  get_header-set_header_self :
      (v : Text) (hs : List (Text × Text))
      → canonical name ≡ name
      → get_header name (set_header rt name v hs) ≡ v
  unfolding set_header
  get_header-set_header_self v hs c =
      rw c (get_header-put_header name name v hs ∙ rw (text_eq_refl name))

  -- Names that are canonical already.
  pub record IsCanonical : Type 0 where
    pub agent : canonical (lit "User-Agent") ≡ lit "User-Agent"
    pub accept : canonical (lit "Accept") ≡ lit "Accept"
    pub content : canonical (lit "Content-Type") ≡ lit "Content-Type"
    pub admin : canonical (lit "X-Admin-Key") ≡ lit "X-Admin-Key"
    pub authorization : canonical (lit "Authorization") ≡ lit "Authorization"

  -- The credentials of a request: none with the admin key, else the access token's or the API
  -- key's.
  abbrev pub credentials : Transport Float → Request → Text → Text
  credentials t req token =
      if req.use_admin_key && not (is_empty t.admin_key)
      then []
      else if not (is_empty token)
      then lit "Bearer " ++ token
      else if not (is_empty t.api_key)
      then lit "Bearer " ++ t.api_key
      else []

  auth_header :
      (t : Transport Float) (req : Request) (token : Text) (hs : List (Text × Text))
      → IsCanonical
      → get_header name hs ≡ []
      → get_header name (set_auth rt t req token hs) ≡ credentials t req token
  unfolding set_auth
  auth_header t req token hs c h =
      let admin_kept =
        get_header-set_header_ne (lit "X-Admin-Key") t.admin_key hs c.admin names_differ.3 in
      let bearer = get_header-set_header_self (lit "Bearer " ++ token) hs c.authorization in
      let key = get_header-set_header_self (lit "Bearer " ++ t.api_key) hs c.authorization in
      elim (Bool-cases (req.use_admin_key && not (is_empty t.admin_key))) [
        | inl y ↦ rw y (admin_kept ∙ h)
        | inr n ↦ rw n (elim (Bool-cases (not (is_empty token))) [
          | inl y ↦ rw y bearer
          | inr n₁ ↦
              rw n₁ (elim (Bool-cases (not (is_empty t.api_key))) [
                | inl y ↦ rw y key
                | inr n₂ ↦ rw n₂ h
              ])
        ])
      ]

  plain_headers :
      (t : Transport Float) (req : Request)
      → IsCanonical
      → let agent = set_header rt (lit "User-Agent") t.user_agent [] in
        let accept = set_header rt (lit "Accept") (lit "application/json") agent in
        get_header name (
          if has_body req
          then set_header rt (lit "Content-Type") (lit "application/json") accept
          else accept)
        ≡ []
  plain_headers t req c =
      let agent = set_header rt (lit "User-Agent") t.user_agent [] in
      let accept = set_header rt (lit "Accept") (lit "application/json") agent in
      let (na, nb, nc, _) = names_differ in
      let a =
        get_header-set_header_ne (lit "Accept") (lit "application/json") agent c.accept nb
        ∙ get_header-set_header_ne (lit "User-Agent") t.user_agent [] c.agent na
        ∙ empty_header in
      elim (Bool-cases (has_body req)) [
        | inl y ↦ rw y (
            get_header-set_header_ne (lit "Content-Type") (lit "application/json") accept c.content
              nc
            ∙ a)
        | inr n ↦ rw n a
      ]

  -- If neither the transport's headers nor the request's name it, the header Authorization that is
  -- sent holds the access token, or the API key where there is no token, and is absent if the admin
  -- key is used or there is neither.
  pub request_headers-authorization :
      (t : Transport Float) (req : Request) (token : Text)
      → IsCanonical
      → Lacks (lit "Authorization") t.headers
      → Lacks (lit "Authorization") req.headers
      → get_header (lit "Authorization") (request_headers rt t req token) ≡ credentials t req token
  unfolding request_headers
  request_headers-authorization t req token c nt nr =
      get_header-set_headers name req.headers _ nr
      ∙ get_header-set_headers name t.headers _ nt
      ∙ auth_header t req token _ c (plain_headers t req c)
