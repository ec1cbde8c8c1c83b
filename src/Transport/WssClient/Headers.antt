-- ===== src/Transport/WssClient/Headers.antt =====
-- Which headers a request ends up with.
use apfsds_rs.Base.{
  ℕ, String, text_append, ◌≡◌, refl, ◌∙◌, ap, Bool, true, false, List, [], ◌∷◌, Option, none, some,
  Result, ok, err, if◌then◌else◌, All,
}
use apfsds_rs.Transport.WssClient.{
  HeaderMap, Request, WssClientConfig, invalid_url, put_all, put_valid, put_parsed, parsed,
  browser_headers, optional_header, origin_of, or_text, bearer, build_request,
}

module _ (h : HeaderMap) where
  -- What the last entry of the name says, or what was there.
  abbrev pub last_put : h.Name → List (String × String) → Option String → Option String
  last_put n [] before = before
  last_put n ((name, value) ∷ entries) before =
      last_put n entries (if h.same (h.named name) n then some value else before)

  abbrev pub of_parsed : h.Name → Option (h.Name × String) → Option String → Option String
  of_parsed n none before = before
  of_parsed n (some (m, value)) before = if h.same m n then some value else before

  abbrev pub last_valid : h.Name → List (String × String) → Option String → Option String
  last_valid n [] before = before
  last_valid n (pair ∷ pairs) before = last_valid n pairs (of_parsed n (parsed h pair) before)

  abbrev pub IsValue : String × String → Type 0
  IsValue entry = h.is_value entry.1 ≡ true

  get-put_all :
      (entries : List (String × String)) (m : h.Map)
      → All IsValue entries
      → (m' : h.Map) × (put_all h entries m ≡ some m')
        × ((n : h.Name) → h.get n m' ≡ last_put n entries (h.get n m))
  unfolding put_all
  get-put_all [] m valid = (m, refl, λ n. refl)
  get-put_all ((name, value) ∷ entries) m (v, valid) =
      let (m', put, got) = get-put_all entries (h.insert (h.named name) value m) valid in
      (m', rw v put, λ n. got n ∙ ap (last_put n entries) (h.get-insert (h.named name) n value m))

  get-put_parsed :
      (o : Option (h.Name × String)) (n : h.Name) (m : h.Map)
      → h.get n (put_parsed h o m) ≡ of_parsed n o (h.get n m)
  get-put_parsed none n m = refl
  get-put_parsed (some (name, value)) n m = h.get-insert name n value m

  get-put_valid :
      (pairs : List (String × String)) (n : h.Name) (m : h.Map)
      → h.get n (put_valid h pairs m) ≡ last_valid n pairs (h.get n m)
  unfolding put_valid
  get-put_valid [] n m = refl
  get-put_valid (pair ∷ pairs) n m =
      get-put_valid pairs n (put_parsed h (parsed h pair) m)
      ∙ ap (last_valid n pairs) (get-put_parsed (parsed h pair) n m)

  abbrev pub names : h.Name → Option (h.Name × String) → Bool
  names n none = false
  names n (some (m, value)) = h.same m n

  last_valid-none :
      (n : h.Name) (pairs : List (String × String)) (before : Option String)
      → All (λ pair. names n (parsed h pair) ≡ false) pairs
      → last_valid n pairs before ≡ before
  last_valid-none n [] before free = refl
  last_valid-none n (pair ∷ pairs) before (f, free) =
      ap (last_valid n pairs) (by_parsed (parsed h pair) f) ∙ last_valid-none n pairs before free
    where
      by_parsed : (o : Option (h.Name × String)) → names n o ≡ false → of_parsed n o before ≡ before
      by_parsed none e = refl
      by_parsed (some (m, value)) e = rw e refl

  abbrev pub sent_headers : WssClientConfig → Request h.Map → List (String × String)
  sent_headers c r =
      let host : String = or_text r.host "localhost" in
      browser_headers c host (origin_of c.origin r.scheme host)

  abbrev pub token_headers : WssClientConfig → List (String × String)
  token_headers c = optional_header "authorization" (bearer h c.token)

  -- A URL that is refused is an error. For one that is not, where the texts of the profile, the
  -- origin, the cookies, the referer and the token are header values: there is no panic, and every
  -- header has the value of the last pair that sets it, a custom header before the token, the token
  -- before the plugins, and these before the profile. So the token is sent, behind "Bearer ", unless a
  -- custom header is named Authorization.
  pub build_request-get :
      (into : String → Result (List ℕ) (Request h.Map)) (c : WssClientConfig) (r : Request h.Map)
      (url_error : List ℕ)
      → ((n : h.Name) → h.same n n ≡ true)
      → All IsValue (sent_headers c r)
      → All IsValue (token_headers c)
      → (into c.url ≡ err url_error → build_request h into c ≡ some (err (invalid_url url_error)))
        × (into c.url ≡ ok r
            → (q : Request h.Map) × (build_request h into c ≡ some (ok q))
              × ((n : h.Name)
                  → h.get n q.headers
                    ≡ last_valid n c.headers (
                        last_put n (token_headers c) (
                          last_valid n c.browser_profile.plugin_headers
                            (last_put n (sent_headers c r) (h.get n r.headers)))))
              × ((token : String)
                  → c.token ≡ some token
                  → All (λ pair. names (h.named "authorization") (parsed h pair) ≡ false) c.headers
                  → h.get (h.named "authorization") q.headers ≡ some (text_append "Bearer " token)))
  unfolding build_request
  build_request-get into c r url_error same_self valid valid_token =
      let (m, put, got) = get-put_all (sent_headers c r) r.headers valid in
      let (a, put_token, got_token) =
        get-put_all (token_headers c) (put_valid h c.browser_profile.plugin_headers m)
          valid_token in
      let get_all : (n : h.Name)
          → h.get n (put_valid h c.headers a)
            ≡ last_valid n c.headers (
                last_put n (token_headers c) (
                  last_valid n c.browser_profile.plugin_headers
                    (last_put n (sent_headers c r) (h.get n r.headers)))) =
        λ n.
          get-put_valid c.headers n a
          ∙ ap (last_valid n c.headers) (
              got_token n
              ∙ ap (last_put n (token_headers c)) (
                  get-put_valid c.browser_profile.plugin_headers n m
                  ∙ ap (last_valid n c.browser_profile.plugin_headers) (got n))) in
      (
        λ e. rw (e, build_request) refl,
        λ e. (
          record r { headers = put_valid h c.headers a },
          rw (e, build_request, put, put_token) refl,
          get_all,
          λ token has free.
              get_all (h.named "authorization")
              ∙ last_valid-none (h.named "authorization") c.headers _ free
              ∙ rw (has, same_self (h.named "authorization")) refl,
        ),
      )
