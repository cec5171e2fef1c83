-- ===== src/Pushing.antt =====
-- pushing/: the order book that clients are shown, the subscriptions to its channels, and what one
-- connection does with its requests and with the changes of a book.
pub mod PriceBook
pub mod Subscription
pub mod Changes
pub mod Client
