-- ===== src/Routes/Served.antt =====
-- Every route leads to a live, paid application, under its own hostname or one that it has proved;
-- an installation without an entitlement has none.
use mathlib.Core.List.{Memᴰ}
use managed_oss_cloud.Common.{
  String, Bool, true, List, [], ◌∷◌, Option, none, some, ◌≡◌, ◌⊎◌, inl, inr, refl, given, All,
  All-append, All-implies, Bool-cases, Option-cases,
}
use mathlib.Core.Path.{subst}
use managed_oss_cloud.Common.Dict.{Dict, get, values}
use managed_oss_cloud.Common.Result.{returned, >>=-eq-returned, returned_inj}
use managed_oss_cloud.Types.{GatewayRoute, WorkerNode, WorkerStatus, CustomDomain}
use managed_oss_cloud.Hostnames.{HostnameClaim, get_claim}
use managed_oss_cloud.Routes.Checks.{
  IsHeld, IsOpen, holds_claim-IsHeld, reachable-IsOpen, serving_of,
}
use managed_oss_cloud.Store.{Store}
use managed_oss_cloud.Store.Records.{ApplicationInstance, StoredWorker}
use managed_oss_cloud.Routes.{
  serves, holds_claim, main_route, domain_route, domain_routes, worker_routes, is_reachable,
  application_routes, routes_of_each, list_gateway_routes,
}

-- The hostname of a route is the application's, or a custom domain whose claim it holds.
abbrev pub IsNamed : Dict HostnameClaim → ApplicationInstance → String → Type 0
IsNamed registry app hostname = (hostname ≡ app.hostname) ⊎ IsHeld registry app hostname

-- A route to `app` on `worker`
pub record IsRouteTo (registry : Dict HostnameClaim) (app : ApplicationInstance)
    (worker : WorkerNode) (r : GatewayRoute) : Type 0 where
  pub named : IsNamed registry app r.hostname
  pub target : r.application_instance_id ≡ app.id
  pub node : r.worker_node_id ≡ worker.id
  pub address : r.worker_private_address ≡ worker.private_address

module _ (registry : Dict HostnameClaim) (app : ApplicationInstance) where
  domain_route-IsRouteTo :
      (worker : WorkerNode) (item : CustomDomain) (claim : Option HostnameClaim)
      → Memᴰ item app.custom_domains
      → get_claim item.domain registry ≡ returned claim
      → holds_claim app item claim ≡ true
      → IsRouteTo registry app worker (domain_route app worker item)
  domain_route-IsRouteTo worker item claim m e h = record {
    named = inr (holds_claim-IsHeld registry app item claim m e h);
    target = refl;
    node = refl;
    address = refl;
  }

  domain_routes-All :
      (worker : WorkerNode) (items : List CustomDomain) (routes : List GatewayRoute)
      → ((item : CustomDomain) → Memᴰ item items → Memᴰ item app.custom_domains)
      → domain_routes registry app worker items ≡ returned routes
      → All (IsRouteTo registry app worker) routes
  unfolding domain_routes
  domain_routes-All worker [] routes inside h =
      subst (All (IsRouteTo registry app worker)) (returned_inj h) tt
  domain_routes-All worker (item ∷ items) routes inside h =
      let (claim, e, h') = >>=-eq-returned (get_claim item.domain registry) _ h in
      let (later, e', last) = >>=-eq-returned (domain_routes registry app worker items) _ h' in
      let rest = domain_routes-All worker items later (λ i m. inside i (Memᴰ.tail m)) e' in
      subst (All (IsRouteTo registry app worker)) (returned_inj last)
        (elim (Bool-cases (holds_claim app item claim)) [
          | inl b ↦
              rw b
                (domain_route-IsRouteTo worker item claim (inside item (Memᴰ.head refl)) e b, rest)
          | inr b ↦ rw b rest
        ])

-- What is true of a route that the gateway is given.
pub record IsServed (unrestricted : Bool) (store : Store) (r : GatewayRoute) : Type 0 where
  pub app : ApplicationInstance
  pub member : Memᴰ app (values store.applications)
  pub open_for : IsOpen unrestricted store app
  pub worker : StoredWorker
  pub placed : (id : String) × (app.worker_node_id ≡ some id) × (get store.workers id ≡ some worker)
  pub serving :
      (worker.node.status ≡ WorkerStatus.ready) ⊎ (worker.node.status ≡ WorkerStatus.draining)
  pub route : IsRouteTo store.hostname_registry app worker.node r

module _ (unrestricted : Bool) (store : Store) (app : ApplicationInstance)
    (member : Memᴰ app (values store.applications)) where
  IsRouteTo-IsServed :
      (id : String) (worker : StoredWorker)
      → is_reachable unrestricted store app ≡ true
      → app.worker_node_id ≡ some id
      → get store.workers id ≡ some worker
      → serves worker.node.status ≡ true
      → (r : GatewayRoute) → IsRouteTo store.hostname_registry app worker.node r
      → IsServed unrestricted store r
  IsRouteTo-IsServed id worker live on there b r to = record {
    app = app;
    member = member;
    open_for = reachable-IsOpen unrestricted store app live;
    worker = worker;
    placed = (id, on, there);
    serving = serving_of worker.node.status b;
    route = to;
  }

  worker_routes-All :
      (routes : List GatewayRoute) (id : String) (found : Option StoredWorker)
      → is_reachable unrestricted store app ≡ true
      → app.worker_node_id ≡ some id
      → get store.workers id ≡ found
      → worker_routes store.hostname_registry app found ≡ returned routes
      → All (IsServed unrestricted store) routes
  unfolding worker_routes
  worker_routes-All routes id none live on there h =
      subst (All (IsServed unrestricted store)) (returned_inj h) tt
  worker_routes-All routes id (some worker) live on there h =
      elim (Bool-cases (serves worker.node.status)) [
        | inl b ↦
            let (later, e, last) =
              >>=-eq-returned
                (domain_routes store.hostname_registry app worker.node app.custom_domains) _
                (rw b at h) in
            let served = IsRouteTo-IsServed id worker live on there b in
            subst (All (IsServed unrestricted store)) (returned_inj last) (
              served (main_route app worker.node)
                  (record { named = inl refl; target = refl; node = refl; address = refl }),
              All-implies (IsRouteTo store.hostname_registry app worker.node)
                  (IsServed unrestricted store) later served
                  (domain_routes-All store.hostname_registry app worker.node app.custom_domains
                    later (λ i m. m) e),
            )
        | inr b ↦
            let none_left : returned [] ≡ returned routes = rw b at h in
            subst (All (IsServed unrestricted store)) (returned_inj none_left) tt
      ]

  application_routes-All :
      (routes : List GatewayRoute)
      → application_routes unrestricted store app ≡ returned routes
      → All (IsServed unrestricted store) routes
  unfolding application_routes
  application_routes-All routes h = elim (Bool-cases (is_reachable unrestricted store app)) [
    | inl live ↦ elim (Option-cases app.worker_node_id) [
      | inl e ↦
          let none_left : returned [] ≡ returned routes = rw (live, e) at h in
          subst (All (IsServed unrestricted store)) (returned_inj none_left) tt
      | inr (id, e) ↦ elim (Bool-cases (given (some id))) [
        | inl g ↦
            worker_routes-All routes id (get store.workers id) live e refl (rw (live, e, g) at h)
        | inr g ↦
            let none_left : returned [] ≡ returned routes = rw (live, e, g) at h in
            subst (All (IsServed unrestricted store)) (returned_inj none_left) tt
      ]
    ]
    | inr dead ↦
        let none_left : returned [] ≡ returned routes = rw dead at h in
        subst (All (IsServed unrestricted store)) (returned_inj none_left) tt
  ]

module _ (unrestricted : Bool) (store : Store) where
  routes_of_each-All :
      (apps : List ApplicationInstance) (routes : List GatewayRoute)
      → ((app : ApplicationInstance) → Memᴰ app apps → Memᴰ app (values store.applications))
      → routes_of_each unrestricted store apps ≡ returned routes
      → All (IsServed unrestricted store) routes
  unfolding routes_of_each
  routes_of_each-All [] routes inside h =
      subst (All (IsServed unrestricted store)) (returned_inj h) tt
  routes_of_each-All (app ∷ apps) routes inside h =
      let (here, e, h') = >>=-eq-returned (application_routes unrestricted store app) _ h in
      let (later, e', last) = >>=-eq-returned (routes_of_each unrestricted store apps) _ h' in
      subst (All (IsServed unrestricted store)) (returned_inj last) (
        All-append (IsServed unrestricted store) here later
          (application_routes-All unrestricted store app (inside app (Memᴰ.head refl)) here e)
          (routes_of_each-All apps later (λ a m. inside a (Memᴰ.tail m)) e'))

  -- Every route that the gateway is given leads to an application of the store that is live, in a
  -- live installation that has a subscription which is active or on trial, or needs none, and to
  -- the address of its worker, which is ready or draining. Its hostname is the application's own,
  -- or one of its custom domains that is verified or active and whose claim in the registry, the
  -- one of its ownership instructions, is made for this application and verified or active.
  pub routes-IsServed :
      (routes : List GatewayRoute)
      → list_gateway_routes unrestricted store ≡ returned routes
      → All (IsServed unrestricted store) routes
  unfolding list_gateway_routes
  routes-IsServed routes h = routes_of_each-All (values store.applications) routes (λ a m. m) h
