-- ===== src/Network/Manager/Ids/Links.antt =====
-- The loops of `OnAccept` and `OnConnect` keep the numbers of connections in order.
use elegance.Prelude.{
  ℕ, ◌≡◌, arith, Bool, true, false, some, [], ◌∷◌, if◌then◌else◌, ap, sym, subst, ◌∙◌, inl, inr,
}
use elegance.Prelude.Map.{Map, find, insert, find-insert_cases, nat_key}
use elegance.Network.Endpoint.{Endpoint, endpoint_key, same_endpoint, same_endpoint_cong}
use elegance.Network.Manager.{
  NetworkManager, SocketAccept, SocketConnect, add_endpoint, add_accepts, add_connects,
  check_on_handle_accept, check_on_handle_connect,
}
use elegance.Network.Manager.Ids.{Taken, WellNumbered, IsFresh}

-- The number is this endpoint's, or no one's.
pub record IsFor (id : ℕ) (ep : Endpoint) (m : NetworkManager) : Type 0 where
  pub is_taken : Taken id m
  pub only : (e : Endpoint) → find e m.endpoint_to_net_id ≡ some id → same_endpoint ep e ≡ true

same-both :
    (k a b : Endpoint)
    → same_endpoint k a ≡ true
    → same_endpoint k b ≡ true
    → same_endpoint a b ≡ true
same-both k a b h g = sym (same_endpoint_cong k a b h) ∙ g

module _ (id : ℕ) (ep : Endpoint) (m : NetworkManager) (w : WellNumbered m)
    (f : IsFor id ep m) where
  abbrev now : NetworkManager
  now = add_endpoint id ep m

  add_endpoint-IsFor : IsFor id ep now
  unfolding add_endpoint
  add_endpoint-IsFor = record {
    is_taken = f.is_taken;
    only = λ e h. elim (find-insert_cases e ep id id m.endpoint_to_net_id h) [
      | inl (t, eq) ↦ t
      | inr g ↦ f.only e g
    ];
  }

  add_endpoint-WellNumbered : WellNumbered now
  unfolding add_endpoint
  add_endpoint-WellNumbered = record {
    free_once = w.free_once;
    free_bounded = w.free_bounded;
    taken = λ e j h. elim (find-insert_cases e ep id j m.endpoint_to_net_id h) [
      | inl (t, eq) ↦ subst (λ k. Taken k m) eq f.is_taken
      | inr g ↦ w.taken e j g
    ];
    known = λ e j h. elim (find-insert_cases j id ep e m.net_id_to_endpoint h) [
      | inl (t, eq) ↦ subst (λ k. Taken k m) (ground (arith, t)) f.is_taken
      | inr g ↦ w.known e j g
    ];
    one_each = one;
  }
    where
      one :
          (a b : Endpoint) (j : ℕ)
          → find a now.endpoint_to_net_id ≡ some j
          → find b now.endpoint_to_net_id ≡ some j
          → same_endpoint a b ≡ true
      one a b j h g = elim (find-insert_cases a ep id j m.endpoint_to_net_id h) [
        | inl (t, eq) ↦
            same-both ep a b t (elim (find-insert_cases b ep id j m.endpoint_to_net_id g) [
              | inl (t', eq') ↦ t'
              | inr g' ↦ f.only b (g' ∙ ap some (sym eq))
            ])
        | inr h' ↦ (elim (find-insert_cases b ep id j m.endpoint_to_net_id g) [
          | inl (t', eq') ↦ same-both ep a b (f.only a (h' ∙ ap some (sym eq'))) t'
          | inr g' ↦ w.one_each a b j h' g'
        ])
      ]

pub IsFresh-IsFor : (id : ℕ) (ep : Endpoint) (m : NetworkManager) → IsFresh id m → IsFor id ep m
IsFresh-IsFor id ep m f = record { is_taken = f.is_taken; only = λ e h. absurd (f.no_number e h) }

abbrev pub Numbered : ℕ → Endpoint → NetworkManager → Type 0
Numbered id ep m = WellNumbered m × IsFor id ep m

Numbered-if :
    (b : Bool) (id : ℕ) (ep : Endpoint) (x y : NetworkManager)
    → Numbered id ep x
    → Numbered id ep y
    → Numbered id ep (if b then x else y)
Numbered-if true id ep x y h k = h
Numbered-if false id ep x y h k = k

relinked :
    (id : ℕ) (ep : Endpoint) (m : NetworkManager) (a c : Map ℕ ℕ)
    → Numbered id ep m
    → Numbered id ep (add_endpoint id ep (record m { net_id_to_accept = a; net_id_to_connect = c }))
relinked id ep m a c h =
    let n : NetworkManager = record m { net_id_to_accept = a; net_id_to_connect = c } in
    let w : WellNumbered n = record {
      free_once = h.0.free_once;
      free_bounded = h.0.free_bounded;
      taken = h.0.taken;
      known = h.0.known;
      one_each = h.0.one_each;
    } in
    let f : IsFor id ep n = record { is_taken = h.1.is_taken; only = h.1.only } in
    (add_endpoint-WellNumbered id ep n w f, add_endpoint-IsFor id ep n w f)

pub add_accepts-Numbered :
    (id : ℕ) (ep : Endpoint) (l : Map ℕ SocketAccept) (m : NetworkManager)
    → Numbered id ep m
    → Numbered id ep (add_accepts id ep l m)
unfolding add_accepts
add_accepts-Numbered id ep [] m h = h
add_accepts-Numbered id ep ((a, s) ∷ rest) m h =
    Numbered-if (check_on_handle_accept ep.remote_ip_addr ep.remote_port s) id ep _ _
      (add_accepts-Numbered id ep rest _
        (relinked id ep m (insert id a m.net_id_to_accept) m.net_id_to_connect h))
      (add_accepts-Numbered id ep rest m h)

pub add_connects-Numbered :
    (id : ℕ) (ep : Endpoint) (l : Map ℕ SocketConnect) (m : NetworkManager)
    → Numbered id ep m
    → Numbered id ep (add_connects id ep l m)
unfolding add_connects
add_connects-Numbered id ep [] m h = h
add_connects-Numbered id ep ((c, s) ∷ rest) m h =
    Numbered-if (check_on_handle_connect ep.remote_ip_addr ep.remote_port s) id ep _ _
      (add_connects-Numbered id ep rest _
        (relinked id ep m m.net_id_to_accept (insert id c m.net_id_to_connect) h))
      (add_connects-Numbered id ep rest m h)
