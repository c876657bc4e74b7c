-- ===== src/Schema/Rows.antt =====
-- prisma/schema.prisma: the enums, and a record for each table that the services read or write.
use fruct.Prelude.{ℕ, String, Bool, Option, List}

pub data Role : Type 0 where
  owner manager : Role

pub data LeadStatus : Type 0 where
  new contacted in_dialogue proposal_sent waiting_decision won lost : LeadStatus

pub data LeadSource : Type 0 where
  avito youdo website referral other : LeadSource

pub data BuyerType : Type 0 where
  individual legal_entity : BuyerType

pub data DealStatus : Type 0 where
  new waiting_payment paid shipped completed cancelled refunded : DealStatus

pub data PaymentMethod : Type 0 where
  cash card transfer installment : PaymentMethod

pub data PayoutStatus : Type 0 where
  draft approved paid : PayoutStatus

pub data ScriptCategory : Type 0 where
  greeting price delivery warranty objection closing other : ScriptCategory

pub data NotificationType : Type 0 where
  sla_breach follow_up_due deal_status_changed daily_digest : NotificationType

pub data DeliveryQuoteSource : Type 0 where
  manual ai_estimate : DeliveryQuoteSource

pub record Tenant (D : Type 0) : Type 0 where
  pub id : ℕ
  pub name : String
  pub sla_minutes : ℕ
  pub legal_entity_markup_percent : D
  pub is_active : Bool

pub record User (D : Type 0) : Type 0 where
  pub id : ℕ
  pub tenant_id : ℕ
  pub email : String
  pub password_hash : String
  pub full_name : String
  pub role : Role
  pub telegram_chat_id : Option String
  pub base_salary : D
  pub commission_percent : D
  pub max_discount_percent : D
  pub is_active : Bool
  pub must_change_password : Bool
  pub created_at : ℕ

pub record RefreshToken : Type 0 where
  pub id : ℕ
  pub user_id : ℕ
  pub token_hash : String
  pub expires_at : ℕ
  pub revoked_at : Option ℕ

pub record PasswordResetToken : Type 0 where
  pub id : ℕ
  pub user_id : ℕ
  pub token_hash : String
  pub expires_at : ℕ
  pub used_at : Option ℕ

pub record Category : Type 0 where
  pub id : ℕ
  pub tenant_id : ℕ
  pub name : String

pub record Product (D : Type 0) : Type 0 where
  pub id : ℕ
  pub tenant_id : ℕ
  pub category_id : Option ℕ
  pub name : String
  pub sku : Option String
  pub price : D
  pub cost_price : Option D
  pub weight_kg : Option D
  pub specs : Option String
  pub image_urls : List String
  pub is_active : Bool

pub record Warehouse : Type 0 where
  pub id : ℕ
  pub tenant_id : ℕ
  pub name : String
  pub city : String
  pub address : Option String
  pub is_active : Bool

pub record Stock : Type 0 where
  pub warehouse_id : ℕ
  pub product_id : ℕ
  pub quantity : ℕ

pub record DeliveryOption (D : Type 0) : Type 0 where
  pub id : ℕ
  pub tenant_id : ℕ
  pub name : String
  pub price : D
  pub eta_days : Option ℕ
  pub conditions : Option String

pub record DeliveryQuote (D : Type 0) : Type 0 where
  pub id : ℕ
  pub tenant_id : ℕ
  pub warehouse_id : ℕ
  pub destination_city : String
  pub weight_kg : Option D
  pub cost : D
  pub eta_days_min : ℕ
  pub eta_days_max : ℕ
  pub source : DeliveryQuoteSource
  pub is_approximate : Bool

pub record ScriptTemplate : Type 0 where
  pub id : ℕ
  pub tenant_id : ℕ
  pub category : ScriptCategory
  pub title : String
  pub content : List ℕ
  pub is_active : Bool
  pub created_by_id : Option ℕ

pub record Lead : Type 0 where
  pub id : ℕ
  pub tenant_id : ℕ
  pub assigned_manager_id : Option ℕ
  pub full_name : Option String
  pub phone : Option String
  pub city : Option String
  pub source : LeadSource
  pub source_link : Option String
  pub status : LeadStatus
  pub notes : Option String
  pub buyer_type : BuyerType
  pub company_name : Option String
  pub inn : Option String
  pub first_response_at : Option ℕ
  pub last_contact_at : Option ℕ
  pub next_follow_up_at : Option ℕ
  pub created_at : ℕ

pub record DealItem (D : Type 0) : Type 0 where
  pub product_id : ℕ
  pub quantity : ℕ
  pub unit_price : D
  pub subtotal : D

-- A deal with the rows of `deal_items` that belong to it.
pub record Deal (D : Type 0) : Type 0 where
  pub id : ℕ
  pub tenant_id : ℕ
  pub lead_id : ℕ
  pub manager_id : ℕ
  pub warehouse_id : Option ℕ
  pub delivery_option_id : Option ℕ
  pub delivery_quote_id : Option ℕ
  pub delivery_cost : D
  pub discount : D
  pub requires_vat_invoice : Bool
  pub legal_entity_markup : D
  pub total_amount : D
  pub payment_method : Option PaymentMethod
  pub status : DealStatus
  pub commission_percent_snap : D
  pub commission_amount : D
  pub items : List (DealItem D)
  pub created_at : ℕ
  pub closed_at : Option ℕ
  pub payout_id : Option ℕ

pub record Payout (D : Type 0) : Type 0 where
  pub id : ℕ
  pub tenant_id : ℕ
  pub manager_id : ℕ
  pub period_start : ℕ
  pub period_end : ℕ
  pub base_salary : D
  pub total_commission : D
  pub total_payout : D
  pub status : PayoutStatus
  pub email_sent_at : Option ℕ
  pub approved_at : Option ℕ

pub data MailTemplate : Type 0 where
  credentials_issued password_reset payout_statement payout_status_changed : MailTemplate
  sla_breach daily_digest : MailTemplate

-- The JSON of a notification: the lead that waits, or the numbers of a day.
pub data NotificationPayload (D : Type 0) : Type 0 where
  lead_waits : ℕ → String → String → NotificationPayload D
  day_summary : ℕ → ℕ → D → ℕ → NotificationPayload D

pub record Notification (D : Type 0) : Type 0 where
  pub id : ℕ
  pub tenant_id : ℕ
  pub user_id : ℕ
  pub type : NotificationType
  pub payload : NotificationPayload D
  pub is_read : Bool
  pub created_at : ℕ

-- A row that the mail worker writes: the letter's recipient and template.
pub record ActivityLog : Type 0 where
  pub id : ℕ
  pub tenant_id : ℕ
  pub user_id : Option ℕ
  pub to : String
  pub template : MailTemplate
  pub created_at : ℕ

-- A job of the mail queue, without its rendered texts: the recipient, the template, and the id of the
-- row that it is about.
pub record MailJob : Type 0 where
  pub tenant_id : ℕ
  pub user_id : ℕ
  pub to : String
  pub template : MailTemplate
  pub subject_id : ℕ

-- A message of the Telegram bot: the chat, and the id of the row that it is about.
pub record TelegramMessage : Type 0 where
  pub chat_id : String
  pub subject_id : ℕ

-- The tables that the modelled services use, the mail queue, and what the bot has sent.
pub record Db (D : Type 0) : Type 0 where
  pub tenants : List (Tenant D)
  pub users : List (User D)
  pub refresh_tokens : List RefreshToken
  pub password_reset_tokens : List PasswordResetToken
  pub categories : List Category
  pub products : List (Product D)
  pub warehouses : List Warehouse
  pub stocks : List Stock
  pub delivery_options : List (DeliveryOption D)
  pub delivery_quotes : List (DeliveryQuote D)
  pub script_templates : List ScriptTemplate
  pub leads : List Lead
  pub deals : List (Deal D)
  pub payouts : List (Payout D)
  pub notifications : List (Notification D)
  pub activity_logs : List ActivityLog
  pub mail_queue : List MailJob
  pub telegram_messages : List TelegramMessage
