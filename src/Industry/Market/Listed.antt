-- ===== src/Industry/Market/Listed.antt =====
-- libs/market_data/market_data.cpp: which jobs the orders of the market become.
use eve_industry_planner.Prelude.{
  ℕ, ◌≡◌, refl, sym, ap, subst, ◌∙◌, ◌⊎◌, inl, inr, true, false, some, List, [], ◌∷◌, ◌++◌, lookup,
  Result, ok, >>=-eq-ok, ok-injective, or_throw, assertion, Bool-cases,
}
use eve_industry_planner.Text.{Text, codes, to_string}
use eve_industry_planner.Double.{Double}
use eve_industry_planner.Catalog.Names.{get_name, check_name}
use eve_industry_planner.Catalog.Types.Checked.{is_bp}
use eve_industry_planner.Industry.Job.{Job, Kind, buy, sell, new_buy, new_sell}
use eve_industry_planner.Industry.Stuff.{Stuff, Tables, get_resource}
use eve_industry_planner.Industry.Stuff.Items.{HasItems, Goes, Goes-trans, get_resource-Goes}
use eve_industry_planner.Industry.Market.{
  MarketOrder, market_job, market_jobs_of, buy_from, sell_to, get_market_jobs,
}

module _ {ℓ} {W : Type ℓ} ⦃d : Double W⦄ (tables : Tables W) where
  -- What the jobs of both kinds have of an order: the place of its item, what is paid, how much there
  -- is, and the names.
  pub record IsTrade (verb : Text) (kind : ℕ → ℕ → Text → Kind) (cost : W) (s : Stuff W)
      (o : MarketOrder W) (j : Job W) : Type ℓ where
    pub place : ℕ
    pub item_name : Text
    pub found : lookup o.type s.resources ≡ some place
    pub named : get_name tables.names o.type ≡ ok item_name
    pub value : j.cost ≡ cost
    pub lower : j.lower_limit ≡ d.of_nat 0
    pub upper : j.upper_limit ≡ d.of_nat o.volume
    pub name : j.name ≡ verb ++ (codes "_" ++ (to_string o.type ++ (codes "_" ++ to_string o.id)))
    pub full_name :
        j.full_name ≡ verb ++ (codes " " ++ (item_name ++ (codes " at " ++ o.station_name)))
    pub traded : j.kind ≡ kind place o.station_id o.station_name

  -- The job of an order of sale makes one unit of the item out of nothing.
  pub record IsBuy (fee : W) (s : Stuff W) (o : MarketOrder W) (j : Job W) : Type ℓ where
    pub trade :
        IsTrade (codes "Buy") buy (d.times (d.neg o.price) (d.plus (d.literal 10 1) fee)) s o j
    pub inputs : j.inputs ≡ []
    pub outputs : j.outputs ≡ (trade.place, d.of_nat 1) ∷ []

  -- The job of an order of purchase makes nothing out of one unit of the item.
  pub record IsSell (fee tax : W) (s : Stuff W) (o : MarketOrder W) (j : Job W) : Type ℓ where
    pub trade :
        IsTrade
          (codes "Sell")
          sell
          (d.times o.price (d.minus (d.minus (d.literal 10 1) fee) tax))
          s
          o
          j
    pub inputs : j.inputs ≡ (trade.place, d.of_nat 1) ∷ []
    pub outputs : j.outputs ≡ []

  -- The jobs are those of the orders, in their order, without those whose item is a blueprint.
  pub data Lists (Q : MarketOrder W → Job W → Type ℓ)
      : List (MarketOrder W) → List (Job W) → Type ℓ where
    no_order : Lists Q [] []
    blueprint :
        (o : MarketOrder W) (os : List (MarketOrder W)) (js : List (Job W))
        → is_bp tables.types o.type ≡ ok true
        → Lists Q os js
        → Lists Q (o ∷ os) js
    job_of :
        (o : MarketOrder W) (os : List (MarketOrder W)) (j : Job W) (js : List (Job W))
        → is_bp tables.types o.type ≡ ok false
        → Q o j
        → Lists Q os js
        → Lists Q (o ∷ os) (j ∷ js)

  Lists-map :
      {Q R : MarketOrder W → Job W → Type ℓ} {os : List (MarketOrder W)} {js : List (Job W)}
      → ((o : MarketOrder W) (j : Job W) → Q o j → R o j)
      → Lists Q os js
      → Lists R os js
  Lists-map h no_order = no_order
  Lists-map h (blueprint o os js e v) = blueprint o os js e (Lists-map h v)
  Lists-map h (job_of o os j js e q v) = job_of o os j js e (h o j q) (Lists-map h v)

  IsTrade-kept :
      (verb : Text) (kind : ℕ → ℕ → Text → Kind) (cost : W) (s s' : Stuff W) (o : MarketOrder W)
      (j : Job W)
      → Goes tables s s'
      → (t : IsTrade verb kind cost s o j)
      → (t' : IsTrade verb kind cost s' o j) × (t'.place ≡ t.place)
  IsTrade-kept verb kind cost s s' o j g t = (
    record {
      place = t.place;
      item_name = t.item_name;
      found = g.kept o.type t.place t.found;
      named = t.named;
      value = t.value;
      lower = t.lower;
      upper = t.upper;
      name = t.name;
      full_name = t.full_name;
      traded = t.traded;
    },
    refl,
  )

  -- How the job of one order is made: `Q s o j` says what it is.
  record Makes (make : ℕ → MarketOrder W → Stuff W → Result (Job W))
      (Q : Stuff W → MarketOrder W → Job W → Type ℓ) : Type ℓ where
    makes :
        (r : ℕ) (o : MarketOrder W) (s : Stuff W) (j : Job W)
        → HasItems tables s
        → lookup o.type s.resources ≡ some r
        → make r o s ≡ ok j
        → Q s o j
    kept : (s s' : Stuff W) (o : MarketOrder W) (j : Job W) → Goes tables s s' → Q s o j → Q s' o j

  module _ (make : ℕ → MarketOrder W → Stuff W → Result (Job W))
      (Q : Stuff W → MarketOrder W → Job W → Type ℓ) (m : Makes make Q) where
    market_job_one :
        (o : MarketOrder W) (s s' : Stuff W) (js : List (Job W))
        → HasItems tables s
        → market_job tables make o s ≡ ok (js, s')
        → Goes tables s s'
          × (((is_bp tables.types o.type ≡ ok true) × (js ≡ []))
              ⊎ ((is_bp tables.types o.type ≡ ok false) × ((j : Job W) × (js ≡ j ∷ []) × Q s' o j)))
    unfolding market_job
    market_job_one o s s' js v e =
        let (name, a, e1) = >>=-eq-ok (or_throw (check_name tables.names o.type) assertion) _ e in
        let (bp, b, e2) = >>=-eq-ok (is_bp tables.types o.type) _ e1 in
        elim (Bool-cases bp) [
          | inl t ↦
              let q : ([], s) ≡ (js, s') = ok-injective (rw t at e2) in
              (
                subst (λ x. Goes tables s x) (ap (λ x. x.1) q)
                    record { items = v; kept = λ k p h. h },
                inl (b ∙ ap (λ x. ok x) t, sym (ap (λ x. x.0) q)),
              )
          | inr t ↦
              let ((r, s1), c, e3) = >>=-eq-ok (get_resource tables o.type s) _ (rw t at e2) in
              let (j, f, e4) = >>=-eq-ok (make r o s1) _ e3 in
              let (g, h) = get_resource-Goes tables o.type r s s1 v c in
              let q : (j ∷ [], s1) ≡ (js, s') = ok-injective e4 in
              (
                subst (λ x. Goes tables s x) (ap (λ x. x.1) q) g,
                inr (
                  b ∙ ap (λ x. ok x) t,
                  (
                    j,
                    sym (ap (λ x. x.0) q),
                    subst (λ x. Q x o j) (ap (λ x. x.1) q) (m.makes r o s1 j g.items h f),
                  ),
                ),
              )
        ]

    market_jobs_of-Lists :
        (os : List (MarketOrder W)) (s s' : Stuff W) (js : List (Job W))
        → HasItems tables s
        → market_jobs_of tables make os s ≡ ok (js, s')
        → Goes tables s s' × Lists (Q s') os js
    unfolding market_jobs_of
    market_jobs_of-Lists [] s s' js v e =
        let q : ([], s) ≡ (js, s') = ok-injective e in
        (
          subst (λ x. Goes tables s x) (ap (λ x. x.1) q) record { items = v; kept = λ k p h. h },
          subst (λ x. Lists (Q s') [] x) (ap (λ x. x.0) q) no_order,
        )
    market_jobs_of-Lists (o ∷ os) s s' js v e =
        let ((js1, s1), a, e1) = >>=-eq-ok (market_job tables make o s) _ e in
        let ((rest, s2), b, e2) = >>=-eq-ok (market_jobs_of tables make os s1) _ e1 in
        let q : (js1 ++ rest, s2) ≡ (js, s') = ok-injective e2 in
        let (g1, one) = market_job_one o s s1 js1 v a in
        let (g2, l) = market_jobs_of-Lists os s1 s2 rest g1.items b in
        let all : Lists (Q s2) (o ∷ os) (js1 ++ rest) = elim one [
          | inl (t, n) ↦
              subst (λ x. Lists (Q s2) (o ∷ os) (x ++ rest)) (sym n) (blueprint o os rest t l)
          | inr (t, (j, n, k)) ↦
              subst (λ x. Lists (Q s2) (o ∷ os) (x ++ rest)) (sym n)
                (job_of o os j rest t (m.kept s1 s2 o j g2 k) l)
        ] in
        (
          subst (λ x. Goes tables s x) (ap (λ x. x.1) q) (Goes-trans tables s s1 s2 g1 g2),
          subst (λ x. Lists (Q x.1) (o ∷ os) x.0) q all,
        )

  module _ (fee tax : W) where
    buy_from-Makes : Makes (buy_from tables fee tax) (IsBuy fee)
    unfolding buy_from new_buy
    buy_from-Makes = record {
      makes = λ r o s j v h e.
          let (res, f, i) = v o.type r h in
          subst (λ x. IsBuy fee s o x) (ok-injective (rw f at e))
            record {
              trade = record {
                place = r;
                item_name = res.full_name;
                found = h;
                named = i.full_name;
                value = refl;
                lower = refl;
                upper = refl;
                name = ap (λ x. codes "Buy_" ++ (x ++ (codes "_" ++ to_string o.id))) i.name;
                full_name = refl;
                traded = refl;
              };
              inputs = refl;
              outputs = refl;
            };
      kept = λ s s' o j g t.
          let (u, p) = IsTrade-kept (codes "Buy") buy _ s s' o j g t.trade in
          record {
            trade = u;
            inputs = t.inputs;
            outputs = t.outputs ∙ ap (λ x. (x, d.of_nat 1) ∷ []) (sym p);
          };
    }

    sell_to-Makes : Makes (sell_to tables fee tax) (IsSell fee tax)
    unfolding sell_to new_sell
    sell_to-Makes = record {
      makes = λ r o s j v h e.
          let (res, f, i) = v o.type r h in
          subst (λ x. IsSell fee tax s o x) (ok-injective (rw f at e))
            record {
              trade = record {
                place = r;
                item_name = res.full_name;
                found = h;
                named = i.full_name;
                value = refl;
                lower = refl;
                upper = refl;
                name = ap (λ x. codes "Sell_" ++ (x ++ (codes "_" ++ to_string o.id))) i.name;
                full_name = refl;
                traded = refl;
              };
              inputs = refl;
              outputs = refl;
            };
      kept = λ s s' o j g t.
          let (u, p) = IsTrade-kept (codes "Sell") sell _ s s' o j g t.trade in
          record {
            trade = u;
            inputs = t.inputs ∙ ap (λ x. (x, d.of_nat 1) ∷ []) (sym p);
            outputs = t.outputs;
          };
    }

    -- Where `getMarketJobs` returns, its jobs are one for each order of sale and behind them one for
    -- each order of purchase, both in the order of the orders and without the orders whose item is a
    -- blueprint. The job of an order of sale makes one unit of the item out of nothing and costs the
    -- price with the fee of the broker on it; the job of an order of purchase makes nothing out of one
    -- unit of the item and earns the price less this fee and the tax. Both are limited by 0 and the
    -- volume of the order, bear the names of the item, the order and its station, and use the place
    -- that the table of `Stuff` has for the item, where from then on there is the resource with the
    -- number and name of the item and what the player owns of it as lower limit, with a minus.
    -- Condition: the table of `Stuff` was so before.
    pub get_market_jobs-Lists :
        (sell_orders buy_orders : List (MarketOrder W)) (s s' : Stuff W) (js : List (Job W))
        → HasItems tables s
        → get_market_jobs tables fee tax sell_orders buy_orders s ≡ ok (js, s')
        → HasItems tables s'
          × ((buys sells : List (Job W)) × (js ≡ buys ++ sells)
              × Lists (IsBuy fee s') sell_orders buys
              × Lists (IsSell fee tax s') buy_orders sells)
    unfolding get_market_jobs
    get_market_jobs-Lists sell_orders buy_orders s s' js v e =
        let ((buys, s1), a, e1) =
          >>=-eq-ok (market_jobs_of tables (buy_from tables fee tax) sell_orders s) _ e in
        let ((sells, s2), b, e2) =
          >>=-eq-ok (market_jobs_of tables (sell_to tables fee tax) buy_orders s1) _ e1 in
        let q : (buys ++ sells, s2) ≡ (js, s') = ok-injective e2 in
        let (g1, l1) = market_jobs_of-Lists _ _ buy_from-Makes sell_orders s s1 buys v a in
        let (g2, l2) = market_jobs_of-Lists _ _ sell_to-Makes buy_orders s1 s2 sells g1.items b in
        let l1' : Lists (IsBuy fee s2) sell_orders buys =
          Lists-map (λ o j k. buy_from-Makes.kept s1 s2 o j g2 k) l1 in
        let same : s2 ≡ s' = ap (λ x. x.1) q in
        (
          subst (λ x. HasItems tables x) same g2.items,
          (
            buys,
            sells,
            sym (ap (λ x. x.0) q),
            subst (λ x. Lists (IsBuy fee x) sell_orders buys) same l1',
            subst (λ x. Lists (IsSell fee tax x) buy_orders sells) same l2,
          ),
        )
