-- ===== src/SellInformation.antt =====
-- main/sell_information.h and sell_information.cpp: the sale of the factors p and q of a number n.
pub mod Parties
pub mod Seller
pub mod Buyer
pub mod Matching
pub mod Indices
pub mod Subset
pub mod Accepting
pub mod Gcd
pub mod Factors
pub mod Factoring
pub mod Recovering
pub mod Payment
pub mod Opening
pub mod Running
pub mod Choosing
pub mod Pairs
pub mod Committing
pub mod Showing
pub mod Encrypting
pub mod Opened
pub mod Revealing
pub mod Redeeming
pub mod Waiting
pub mod Fetching
pub mod Redeemed
pub mod Outcome
pub mod Ending
pub mod Verifying
