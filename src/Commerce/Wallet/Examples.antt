-- ===== src/Commerce/Wallet/Examples.antt =====
-- A wallet that is charged and then pays for a purchase.
use traffic_forwarding_panel.Prelude.{
  some, ◌∷◌, ◌≡◌, inl, ◌+◌, refl, arith, ◌||◌, ◌&&◌, [], any, sum_by, ltb, ◌==◌,
}
use traffic_forwarding_panel.Prelude.Int.{pos, negsuc}
use traffic_forwarding_panel.Prelude.Fallible.{err, ok}
use traffic_forwarding_panel.Commerce.Wallet.Tables.{
  refund_reserve, new_source, Names, Db, Result, recharge, other, add_source, update_source,
  add_allocation,
}
use traffic_forwarding_panel.Commerce.Wallet.{
  post, new_balance, track_funds, open_account, track_credit, restored_reference, track_debit,
  tied_order, select_sources, order_by, place, spend,
}
use traffic_forwarding_panel.Commerce.Wallet.Tied.{reserve_spares_others}
use traffic_forwarding_panel.Commerce.Wallet.Accepts.{post_pays}
use traffic_forwarding_panel.Commerce.Wallet.Sound.{IsSound, credits, debits}
use traffic_forwarding_panel.Commerce.Wallet.Posts.{post-IsSound}
use traffic_forwarding_panel.Commerce.Wallet.Funds.{funds}
use traffic_forwarding_panel.Prelude.Assoc.{lookup, total_by}

abbrev names : Names
names = record {
  legacy = λ u. 1000 + u;
  release = λ r. 2000 + r;
  order_of = λ r. 3000 + r;
  refund_of = λ r. 4000 + r;
  reserve_of = λ r. 5000 + r;
  before = λ a b. ltb a.0 b.0 || a.0 == b.0 && ltb a.1 b.1;
}

abbrev unused : Db
unused = record {
  wallets = [];
  accounts = [];
  sources = [];
  allocations = [];
  ledger = [];
  purchase_refunds = [];
  refunds = (4020, 3011) ∷ [];
}

unused-IsSound : IsSound unused
unfolding credits debits funds any sum_by total_by
unused-IsSound = record {
  funded = record { held = λ u. refl; distinct = tt };
  booked = λ u. refl;
  once = tt;
  bounded = λ u. omega arith;
}

abbrev stored : Result Db → Db
stored (err why) = unused
stored (ok db) = db

abbrev charged : Db
charged = stored (post names 7 1 (pos 500) recharge 11 unused)

abbrev paid : Db
paid = stored (post names 8 1 (negsuc 299) other 12 charged)

charged-IsSound : IsSound charged
unfolding post new_balance track_funds open_account track_credit restored_reference add_source any
charged-IsSound =
    post-IsSound names 7 1 (pos 500) recharge 11 unused charged (omega arith) (omega arith)
      unused-IsSound refl

post-IsSound_example : IsSound paid
unfolding post new_balance track_funds open_account track_credit restored_reference add_source any
    track_debit tied_order select_sources order_by place spend update_source add_allocation
post-IsSound_example =
    post-IsSound names 8 1 (negsuc 299) other 12 charged paid (omega arith) (omega arith)
      charged-IsSound refl

post_pays_example : (db : Db) × (post names 8 1 (negsuc 299) other 12 charged ≡ ok db)
unfolding post new_balance track_funds open_account track_credit restored_reference add_source any
post_pays_example =
    post_pays names 8 1 299 12 charged charged-IsSound (inl refl) (omega arith) refl refl

abbrev charged_again : Db
charged_again = stored (post names 8 1 (pos 200) recharge 13 charged)

charged_again-IsSound : IsSound charged_again
unfolding post new_balance track_funds open_account track_credit restored_reference add_source any
charged_again-IsSound =
    post-IsSound names 8 1 (pos 200) recharge 13 charged charged_again (omega arith) (omega arith)
      charged-IsSound refl

abbrev reserved : Db
reserved = stored (post names 9 1 (negsuc 299) refund_reserve 20 charged_again)

reserve_spares_others_example : lookup 13 reserved.sources ≡ some (new_source 1 3013 200 8)
unfolding post new_balance track_funds open_account track_credit restored_reference add_source any
    track_debit tied_order select_sources order_by place spend update_source add_allocation
reserve_spares_others_example =
    reserve_spares_others names 9 1 299 20 3011 13 (new_source 1 3013 200 8) charged_again reserved
      charged_again-IsSound refl refl refl refl refl refl
