-- ===== src/Rest/Listing/Pages.antt =====
-- A server that gives its tables in pages is read to the end.
use iceberg_db_rs.Base.{ℕ, zero, suc, ◌≤◌, ◌≡◌, Option, none, some, List, [], ◌++◌, arith, ◌∙◌, ap}
use mathlib.Core.List.{append_assoc}
use iceberg_db_rs.Base.Text.{Text, codes}
use iceberg_db_rs.Base.Dict
use iceberg_db_rs.Base.Dict.{Dict}
use iceberg_db_rs.Config.Profile.{nonempty}
use iceberg_db_rs.Rest.Http.{done, and_then, Reply, HttpClient}
use iceberg_db_rs.Rest.Auth.{exchange_pat}
use iceberg_db_rs.Rest.Vended.{TableIdent, tables_list_endpoint}
use iceberg_db_rs.Rest.Listing.{ListTablesResponse, page_of, page_url, list_loop, list_tables_wasm}

module _ {S : Type 0} (http : HttpClient S) (parse_page : Text → Option ListTablesResponse)
    (url bearer : Text) where
  -- Pages from a token on: so many, with these tables, from one state of the network to another.
  pub data Pages : ℕ → Option Text → List TableIdent → S → S → Type 0 where
    last :
        (token : Option Text) (page : ListTablesResponse) (reply : Reply) (s s' : S)
        → http.http_get (page_url url token) bearer s ≡ (done reply, s')
        → page_of http parse_page reply ≡ done page
        → nonempty page.next_page_token ≡ none
        → Pages (suc zero) token page.identifiers s s'
    more :
        (n : ℕ) (token : Option Text) (page : ListTablesResponse) (reply : Reply) (next : Text)
        (rest : List TableIdent) (s s' s'' : S)
        → http.http_get (page_url url token) bearer s ≡ (done reply, s')
        → page_of http parse_page reply ≡ done page
        → nonempty page.next_page_token ≡ some next
        → Pages n (some next) rest s' s''
        → Pages (suc n) token (page.identifiers ++ rest) s s''

  list_loop-Pages :
      (fuel n : ℕ) (token : Option Text) (found tables : List TableIdent) (s s' : S)
      → n ≤ fuel
      → Pages n token tables s s'
      → list_loop http parse_page fuel url bearer token found s
        ≡ (done (some (found ++ tables)), s')
  unfolding list_loop
  list_loop-Pages zero _ _ found _ _ _ h (last token page reply s s' r q e) = absurd (omega arith)
  list_loop-Pages zero _ _ found _ _ _ h (more n token page reply next rest s s' s'' r q e p) =
      absurd (omega arith)
  list_loop-Pages (suc fuel) _ _ found _ _ _ h (last token page reply s s' r q e) =
      rw (r, q) (rw (and_then, e))
  list_loop-Pages (suc fuel) _ _ found _ _ _ h
        (more n token page reply next rest s s' s'' r q e p) =
      rw (r, q)
        (rw (and_then, e)
          (list_loop-Pages fuel n (some next) (found ++ page.identifiers) rest s' s'' (omega arith)
              p
            ∙ ap (λ x. (done (some x), s'')) (append_assoc found page.identifiers rest)))

module _ {S : Type 0} (http : HttpClient S) (parse_page : Text → Option ListTablesResponse)
    (to_uppercase : Text → Text) (parse_token : Text → Option Text) where
  -- When a catalog has a uri, the exchange gives a bearer, and the server then gives the tables of
  -- a namespace in n pages: the listing ends after n rounds, with the tables of all pages in
  -- order, and more fuel changes nothing.
  pub list_tables_wasm-Pages :
      (fuel n : ℕ) (props : Dict Text) (namespace uri bearer : Text) (tables : List TableIdent)
      (s s' s'' : S)
      → nonempty (Dict.get props (codes "uri")) ≡ some uri
      → exchange_pat http parse_token props s ≡ (done bearer, s')
      → Pages http parse_page
          (tables_list_endpoint to_uppercase uri namespace props)
          bearer
          n
          none
          tables
          s'
          s''
      → n ≤ fuel
      → list_tables_wasm http parse_page to_uppercase parse_token fuel props namespace s
        ≡ (done (some tables), s'')
  unfolding list_tables_wasm
  list_tables_wasm-Pages fuel n props namespace uri bearer tables s s' s'' u b p h =
      rw (u, b)
        (list_loop-Pages http parse_page (tables_list_endpoint to_uppercase uri namespace props)
          bearer fuel n none [] tables s' s'' h p)
