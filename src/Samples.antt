-- ===== src/Samples.antt =====
-- The database at which the examples run: one tenant with an owner, two managers, a warehouse with
-- chairs, and leads.
use fruct.Prelude.{ℕ, String, none, some, true, false, [], ◌∷◌, ◌*◌}
use fruct.Prelude.Int.{ℤ, pos}
use fruct.Schema.{
  Db, User, Product, Warehouse, Lead, Role, owner, manager, avito, individual, LeadStatus, Deal,
  DealStatus,
}
use fruct.Session.{AuthenticatedUser, Context}

-- Roubles and percents in ten-thousandths.
abbrev pub amount : ℕ → ℤ
amount n = pos (n * 10000)

abbrev user_row : ℕ → String → Role → User ℤ
user_row id email role = record {
  id = id;
  tenant_id = 1;
  email = email;
  password_hash = "hash";
  full_name = "N";
  role = role;
  telegram_chat_id = none;
  base_salary = amount 30000;
  commission_percent = amount 20;
  max_discount_percent = amount 10;
  is_active = true;
  must_change_password = false;
  created_at = 1;
}

abbrev pub a_manager : User ℤ
a_manager = user_row 2 "a@x" manager

abbrev pub an_owner : User ℤ
an_owner = user_row 1 "o@x" owner

abbrev pub sample_lead : Lead
sample_lead = record {
  id = 30;
  tenant_id = 1;
  assigned_manager_id = some 2;
  full_name = none;
  phone = none;
  city = none;
  source = avito;
  source_link = none;
  status = LeadStatus.new;
  notes = none;
  buyer_type = individual;
  company_name = none;
  inn = none;
  first_response_at = none;
  last_contact_at = none;
  next_follow_up_at = none;
  created_at = 5;
}

abbrev pub sample_product : Product ℤ
sample_product = record {
  id = 10;
  tenant_id = 1;
  category_id = none;
  name = "chair";
  sku = none;
  price = amount 5000;
  cost_price = none;
  weight_kg = some (amount 15);
  specs = none;
  image_urls = [];
  is_active = true;
}

abbrev pub sample_warehouse : Warehouse
sample_warehouse = record {
  id = 20;
  tenant_id = 1;
  name = "main";
  city = "Samara";
  address = none;
  is_active = true;
}

abbrev pub shop : Db ℤ
shop = record {
  tenants =
      record {
        id = 1;
        name = "shop";
        sla_minutes = 15;
        legal_entity_markup_percent = amount 20;
        is_active = true;
      }
      ∷ [];
  users = an_owner ∷ a_manager ∷ user_row 3 "b@x" manager ∷ [];
  refresh_tokens = [];
  password_reset_tokens = [];
  categories = [];
  products = sample_product ∷ [];
  warehouses = sample_warehouse ∷ [];
  stocks = record { warehouse_id = 20; product_id = 10; quantity = 5 } ∷ [];
  delivery_options = [];
  delivery_quotes = [];
  script_templates = [];
  leads = sample_lead ∷ [];
  deals = [];
  payouts = [];
  notifications = [];
  activity_logs = [];
  mail_queue = [];
  telegram_messages = [];
}

abbrev pub owner_session : AuthenticatedUser
owner_session = record { id = 1; tenant_id = 1; role = owner; email = "o@x" }

abbrev pub manager_session : AuthenticatedUser
manager_session = record { id = 2; tenant_id = 1; role = manager; email = "a@x" }

abbrev pub other_session : AuthenticatedUser
other_session = record { id = 3; tenant_id = 1; role = manager; email = "b@x" }

abbrev pub request_at : ℕ → ℕ → Context
request_at now fresh_id = record { tenant = 1; now = now; fresh_id = fresh_id }

-- Two chairs, sold by the first manager.
abbrev pub sold : Deal ℤ
sold = record {
  id = 40;
  tenant_id = 1;
  lead_id = 30;
  manager_id = 2;
  warehouse_id = some 20;
  delivery_option_id = none;
  delivery_quote_id = none;
  delivery_cost = amount 300;
  discount = amount 0;
  requires_vat_invoice = false;
  legal_entity_markup = amount 0;
  total_amount = amount 10300;
  payment_method = none;
  status = DealStatus.new;
  commission_percent_snap = amount 20;
  commission_amount = amount 2060;
  items =
      record { product_id = 10; quantity = 2; unit_price = amount 5000; subtotal = amount 10000 }
      ∷ [];
  created_at = 50;
  closed_at = none;
  payout_id = none;
}
